-- ===== src/Confset.antt =====
-- sf_confset.c and sf_checkpoint.c: the table of configuration files by name, each with its
-- spider and the line that it has reached.
pub mod Stored
use spiderframe.Base.{ℕ, ◌+◌, ◌%◌, Bool, Option, none, some, Text, text_eq, ◌==◌, if◌then◌else◌}
use spiderframe.Link.{Ptr, Cmd, pure, ◌>>=◌}
use spiderframe.Hash.Crc.{sf_crc}
use spiderframe.Hash.Table.{
  Table, HashData, hash_module_init, hash_module_search, hash_module_insert,
}

-- `sf_hash_conf_t` behind its header
pub record HashConf : Type 0 where
  pub conf_fn : Text
  pub s : Ptr
  pub line : ℕ

-- `sizeof(sf_hash_conf_t) - sizeof(T_HashData)`
abbrev pub hash_conf_len : ℕ
hash_conf_len = 24

abbrev pub compare_conf_fn : Text → HashConf → Bool
compare_conf_fn conf_fn hd = text_eq hd.conf_fn conf_fn

unfoldable pub sf_confset_init : Bool → Option Table
sf_confset_init allocated = hash_module_init allocated 8

module _ (nodes : Ptr → HashData HashConf) where
  unfoldable pub sf_confset_search : Table → Text → Cmd (Option Ptr)
  sf_confset_search t conf_fn =
      hash_module_search nodes t (sf_crc conf_fn) (compare_conf_fn conf_fn) hash_conf_len

  abbrev pub insert_missing : Table → Ptr → Option Ptr → Cmd Table
  insert_missing t p (some found) = pure t
  insert_missing t p none = hash_module_insert t (sf_crc (nodes p).body.conf_fn) p

  unfoldable pub sf_confset_insert : Table → Ptr → Cmd Table
  unfolding sf_confset_search
  sf_confset_insert t p = do
    found ← sf_confset_search t (nodes p).body.conf_fn
    insert_missing t p found

  abbrev pub line_of : Option Ptr → ℕ
  line_of none = 0
  line_of (some p) = (nodes p).body.line

  unfoldable pub sf_get_checkpoint : Table → Text → Cmd ℕ
  unfolding sf_confset_search
  sf_get_checkpoint t conf_fn = do h ← sf_confset_search t conf_fn; pure (line_of h)

unfoldable pub sf_do_checkpoint : ℕ → ℕ
sf_do_checkpoint line = if 0 == line % 10 then 1 else 0
