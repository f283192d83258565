-- ===== src/Var.antt =====
-- sf_var.c: the variable table of a spider, a circle of named values, and the expansion of
-- `($name)` in a pattern. A record's name and value are written once, when it is made, and are
-- read here through `vars`.
pub mod Search
pub mod Insert
pub mod Map
pub mod Expand
use spiderframe.Base.{ℕ, Bool, Option, none, some, Text, text_eq, ◌==◌, if◌then◌else◌, [], bytes}
use spiderframe.Link.{Ptr, null, Cmd, fault, pure, ◌>>=◌, dual_link_append, dual_link_remove}
use spiderframe.Link.Walk.{walk}

-- `sf_vartable_t` behind its links.
pub record Var : Type 0 where
  pub name : Text
  pub value : Text

-- A value that is NULL becomes the empty string.
unfoldable pub sf_var_create : Text → Option Text → Var
sf_var_create name none = record { name = name; value = [] }
sf_var_create name (some value) = record { name = name; value = value }

module _ (vars : Ptr → Var) (fuel : ℕ) where
  -- `!strcmp(head->name, name)`
  abbrev pub named : Text → Ptr → Bool
  named name p = text_eq (vars p).name name

  -- The loop is left without a `return` at a NULL: what the caller reads is undefined.
  unfoldable pub sf_var_search : Ptr → Text → Cmd (Option Ptr)
  sf_var_search handle name = walk (λ _. fault) fuel (named name) handle handle

  abbrev pub delete_found : Ptr → Option Ptr → Cmd Ptr
  delete_found handle none = pure handle
  delete_found handle (some v) = dual_link_remove handle v

  -- `*phandle` after the call.
  unfoldable pub sf_var_delete : Ptr → Text → Cmd Ptr
  unfolding sf_var_search
  sf_var_delete handle name = do found ← sf_var_search handle name; delete_found handle found

  abbrev pub insert_found : Ptr → Ptr → Option Ptr → Cmd Ptr
  insert_found handle v none = dual_link_append handle v
  insert_found handle v (some head) = do
    handle' ← dual_link_remove handle head
    dual_link_append handle' v

  -- `*handle` after the call. A record of the same name makes room for the new one.
  unfoldable pub sf_var_insert : Ptr → Ptr → Cmd Ptr
  sf_var_insert handle v = do
    found ← walk (pure none) fuel (named (vars v).name) handle handle
    insert_found handle v found
