-- ===== src/Uniq.antt =====
-- sf_uniq.c: the strings that a policy has produced before.
pub mod Dup
use spiderframe.Base.{ℕ, ◌+◌, Bool, Option, none, some, Text, text_eq}
use spiderframe.Link.{Ptr, Cmd, pure, ◌>>=◌}
use spiderframe.Hash.Crc.{sf_crc}
use spiderframe.Hash.Table.{
  Table, HashData, hash_module_init, alloc_hash_data, hash_module_search, hash_module_insert,
}

-- `sizeof(sf_uniq_t) - sizeof(T_HashData)`
abbrev pub uniq_len : ℕ
uniq_len = 8

abbrev pub compare_string : Text → Text → Bool
compare_string name string = text_eq string name

unfoldable pub sf_uniq_init : Bool → Option Table
sf_uniq_init allocated = hash_module_init allocated 16

-- A new record, and the string that the caller puts into it.
unfoldable pub sf_uniq_create : ℕ → Text → HashData Text
sf_uniq_create size string = alloc_hash_data size string

module _ (nodes : Ptr → HashData Text) where
  unfoldable pub sf_isdup : Table → Text → Cmd (Option Ptr)
  sf_isdup t name = hash_module_search nodes t (sf_crc name) (compare_string name) uniq_len

  unfoldable pub sf_uniq_insert : Table → Ptr → Cmd Table
  sf_uniq_insert t p = hash_module_insert t (sf_crc (nodes p).body) p
