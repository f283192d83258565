-- ===== src/Proc.antt =====
-- sf_proc.c: which URLs a spider follows, how it rewrites them, and how it remembers them.
-- The regular expressions are pcre's, so a compiled pattern, a match and the search for one are
-- parameters; so is the memory that the pool returns, as the address of the new node.
pub mod Ranges
pub mod Rewrite
pub mod Frontier
pub mod Load
use spiderframe.Base.{
  ℕ, suc, ◌+◌, Bool, true, false, ◌||◌, Option, none, some, List, [], ◌∷◌, ◌++◌, tail, Text, length,
  ltb, leb, ◌==◌, if◌then◌else◌,
}
use spiderframe.Template.{Outcome, done, overflow, Part, literal, place, unclosed, scan}
use spiderframe.Var.Expand.{var_value}
use spiderframe.Link.{Ptr, Run, Cmd, fault, pure, ◌>>=◌}
use spiderframe.Hash.Crc.{sf_crc}
use spiderframe.Hash.Bkdr.{bkdr_hash}
use spiderframe.Hash.Table.{
  Table, HashData, hash_data_size, alloc_hash_data, hash_module_init, hash_module_search,
  hash_module_insert,
}

-- The bytes of `dststr` in `sf_rewrite_exp`.
abbrev pub max_rewrite : ℕ
max_rewrite = 1024

-- `dststr` up to `d`, and whether `outstr` still points to a group that was freed.
pub record Rewriting : Type 0 where
  pub out : Text
  pub freed : Bool

-- A copy that writes no NUL.
abbrev pub put : Text → Bool → Text → Option Rewriting
put out freed s =
    if leb (length out + length s) max_rewrite
    then some (record { out = out ++ s; freed = freed })
    else none

-- A missing group leaves `outstr` as it is, and `pcre_free_substring` frees it again.
abbrev pub put_group : Text → Option Text → Rewriting → Option Rewriting
put_group name (some s) st = put st.out true s
put_group name none st = if st.freed then none else put st.out false (var_value name none)

-- `strcpy` writes a NUL behind the text.
abbrev pub put_terminated : Text → Bool → Text → Option Rewriting
put_terminated out freed s =
    if ltb (length out + length s) max_rewrite
    then some (record { out = out ++ s; freed = freed })
    else none

-- `none` is what C leaves undefined: nothing is tested before a copy to `dststr`, and a group may be
-- freed twice.
unfoldable pub rewrite_visit : (Text → Option Text) → Part → Rewriting → Option Rewriting
rewrite_visit groups (literal c) st = put st.out st.freed (c ∷ [])
rewrite_visit groups (place name) st = put_group name (groups name) st
rewrite_visit groups (unclosed s) st = put_terminated st.out st.freed s

abbrev pub or_overflow : Option Rewriting → Outcome Rewriting
or_overflow none = overflow
or_overflow (some st) = done st

-- The zeroed buffer ends its text with a NUL unless all its bytes are written: the reader of a text
-- without one runs beyond it.
abbrev pub as_string : Outcome Rewriting → Outcome Text
as_string (done st) = if ltb (length st.out) max_rewrite then done st.out else overflow
as_string overflow = overflow
as_string Outcome.out_of_fuel = Outcome.out_of_fuel

abbrev pub no_output : Rewriting
no_output = record { out = []; freed = false }

-- `group` is the named substring of the match; the name in the pattern has its sign before it.
-- `overflow` is what C leaves undefined, here and in the text that the caller reads.
unfoldable pub sf_rewrite_exp : (Text → Option Text) → Option Text → Text → Outcome Text
sf_rewrite_exp group none buf = as_string (or_overflow (put_terminated [] false buf))
sf_rewrite_exp group (some varexp) buf =
    as_string
      (scan b'#' (rewrite_visit (λ name. group (tail name))) (suc (length varexp)) varexp no_output)

-- `sf_conf_range_t`
pub record Range (R : Type 0) : Type 0 where
  pub url_white_re : Option R
  pub url_black_re : Option R
  pub url_rewrite : Option Text

abbrev pub return_text : Outcome Text → Outcome (Option Text)
return_text (done s) = done (some s)
return_text overflow = overflow
return_text Outcome.out_of_fuel = Outcome.out_of_fuel

module _ {R M : Type 0} (pcre_exec : R → Text → Option M) where
  -- `pcre_exec` returns an error for a pattern that is NULL.
  unfoldable pub exec : Option R → Text → Option M
  exec none url = none
  exec (some re) url = pcre_exec re url

  abbrev pub matched : Option M → Bool
  matched none = false
  matched (some m) = true

  unfoldable pub match_loop : Text → List (Range R) → Bool
  unfolding exec
  match_loop url [] = false
  match_loop url (r ∷ range) = matched (exec r.url_white_re url) || match_loop url range

  unfoldable pub sf_proc_url_match_range : Text → List (Range R) → Bool
  sf_proc_url_match_range url [] = true
  sf_proc_url_match_range url (r ∷ range) = match_loop url (r ∷ range)

  unfoldable pub black_loop : Text → List (Range R) → Bool
  unfolding exec
  black_loop url [] = false
  black_loop url (r ∷ range) = matched (exec r.url_black_re url) || black_loop url range

module _ {R M : Type 0} (pcre_exec : R → Text → Option M) (named : R → M → Text → Option Text) where
  abbrev pub groups_of : Option R → M → Text → Option Text
  groups_of none m name = none
  groups_of (some re) m name = named re m name

  abbrev pub white_case : Outcome (Option Text) → Text → Range R → Option M → Outcome (Option Text)
  white_case later url r none = later
  white_case later url r (some m) =
      return_text (sf_rewrite_exp (groups_of r.url_white_re m) r.url_rewrite url)

  unfoldable pub white_loop : Text → List (Range R) → Outcome (Option Text)
  unfolding exec
  white_loop url [] = done none
  white_loop url (r ∷ range) =
      white_case (white_loop url range) url r (exec pcre_exec r.url_white_re url)

  -- `done none` is a NULL: the URL is not to be followed.
  unfoldable pub sf_proc_url_rewrite_range : Text → List (Range R) → Outcome (Option Text)
  sf_proc_url_rewrite_range url [] = done (some url)
  sf_proc_url_rewrite_range url (r ∷ range) =
      if black_loop pcre_exec url (r ∷ range) then done none else white_loop url (r ∷ range)

-- The table of known URLs, the keys that its nodes carry, and the lines of the file of URLs.
pub record UrlStore : Type 0 where
  pub table : Table
  pub nodes : Ptr → HashData ℕ
  pub file : List (ℕ × Text)

-- `sizeof(sf_hash_url_t)`
abbrev pub hash_url_size : ℕ
hash_url_size = hash_data_size + 8

unfoldable pub compare_string : Text → ℕ → Bool
compare_string url key = bkdr_hash url == key

unfoldable pub search_url : UrlStore → Text → Cmd (Option Ptr)
search_url st url = hash_module_search st.nodes st.table (sf_crc url) (compare_string url) 8

-- The new node with its key.
abbrev pub with_key : UrlStore → Ptr → Text → Ptr → HashData ℕ
with_key st node url p =
    if p == node then alloc_hash_data hash_url_size (bkdr_hash url) else st.nodes p

-- Without memory, AllocHashData writes at NULL before the test here.
abbrev pub insert_missing : UrlStore → Text → ℕ → Option Ptr → Option Ptr → Cmd UrlStore
insert_missing st url level new (some found) = pure st
insert_missing st url level none none = λ _. fault
insert_missing st url level (some node) none = do
  table ← hash_module_insert st.table (sf_crc url) node
  pure (record { table = table; nodes = with_key st node url; file = st.file ++ (level, url) ∷ [] })

-- `new` is the memory from the pool, if there is any.
unfoldable pub sf_proc_insert_url : UrlStore → Text → ℕ → Option Ptr → Cmd UrlStore
sf_proc_insert_url st url level new = do
  found ← search_url st url
  insert_missing st url level new found

-- A line of the file at the start: known already, or inserted. The memory is not tested here.
abbrev pub load_missing : UrlStore → Text → Option Ptr → Option Ptr → Cmd UrlStore
load_missing st url new (some found) = pure st
load_missing st url none none = λ _. fault
load_missing st url (some node) none = do
  table ← hash_module_insert st.table (sf_crc url) node
  pure (record st { table = table; nodes = with_key st node url })

unfoldable pub load_url : UrlStore → Text → Option Ptr → Cmd UrlStore
load_url st url new = do found ← search_url st url; load_missing st url new found

-- The loop over the lines of the file, each with the memory that the pool returns for it.
unfoldable pub load_urls : List (Text × Option Ptr) → UrlStore → Cmd UrlStore
unfolding load_url
load_urls [] st = pure st
load_urls ((url, new) ∷ rest) st = do st' ← load_url st url new; load_urls rest st'

abbrev pub load_file :
    (Ptr → HashData ℕ) → Option (List (Text × Option Ptr)) → Option Table → Cmd (Option UrlStore)
load_file nodes lines none = pure none
load_file nodes none (some t) = pure none
load_file nodes (some lines) (some t) = do
  st ← load_urls lines (record { table = t; nodes = nodes; file = [] })
  pure (some st)

-- `hdl` is the table of an earlier call, if there is one, and `nodes` is the memory of its nodes;
-- `lines` is `none` if the file does not open. The URLs of the file are not written to it again.
unfoldable pub sf_proc_init_url_entry :
    (Ptr → HashData ℕ)
    → Option Table
    → (allocated : Bool) → Option (List (Text × Option Ptr))
    → Cmd (Option UrlStore)
unfolding load_urls
sf_proc_init_url_entry nodes (some hdl) allocated lines = load_file nodes lines (some hdl)
sf_proc_init_url_entry nodes none allocated lines =
    load_file nodes lines (hash_module_init allocated 16)

abbrev pub insert_rewritten : UrlStore → ℕ → Option Ptr → Outcome (Option Text) → Cmd UrlStore
insert_rewritten st level new (done none) = pure st
insert_rewritten st level new (done (some url)) = sf_proc_insert_url st url level new
insert_rewritten st level new overflow = λ links. fault
insert_rewritten st level new Outcome.out_of_fuel = λ links. Run.out_of_fuel

unfoldable pub sf_proc_insert_url_withrange :
    {R M : Type 0}
    → (R → Text → Option M)
    → (R → M → Text → Option Text)
    → List (Range R)
    → UrlStore
    → Text
    → ℕ
    → Option Ptr
    → Cmd UrlStore
sf_proc_insert_url_withrange pcre_exec named range st url level new =
    insert_rewritten st level new (sf_proc_url_rewrite_range pcre_exec named url range)
