-- ===== src/Var/Search.antt =====
-- sf_var_search and sf_var_delete on a circle of variables.
use spiderframe.Base.{
  ℕ, suc, ◌<◌, ◌≡◌, refl, Option, none, some, List, ◌∷◌, Text, length, Option-cases, inl, inr,
}
use spiderframe.Link.{Ptr, null, Links, ok, fault}
use spiderframe.Link.Append.{Returns}
use spiderframe.Link.Cycle.{Ring, SameOutside}
use spiderframe.Link.Remove.{erase, remove-Ring}
use spiderframe.Link.Walk.{walk, find, find-count, walk_lem}
use spiderframe.Var.{Var, named, sf_var_search, sf_var_delete}

-- The list without the node that was found, if one was.
abbrev pub erase_found : Option Ptr → List Ptr → List Ptr
erase_found none xs = xs
erase_found (some p) xs = erase p xs

module _ (vars : Ptr → Var) (fuel : ℕ) {h : Links} {handle : Ptr} (name : Text) where
  -- On a table that is not empty, with fuel for its records, sf_var_search finds the first record
  -- of the name, and NULL if there is none; it changes no link.
  pub sf_var_search-find :
      (x : Ptr) (xs : List Ptr)
      → Ring h handle (x ∷ xs)
      → length xs < fuel
      → sf_var_search vars fuel handle name h ≡ ok (find (named vars fuel name) (x ∷ xs)) h
  unfolding sf_var_search
  sf_var_search-find x xs r enough =
      walk_lem (λ _. fault) (named vars fuel name) h handle fuel x xs r enough

  -- sf_var_delete takes the record that sf_var_search finds out of the table, and no other.
  pub sf_var_delete-erase :
      (x : Ptr) (xs : List Ptr)
      → Ring h handle (x ∷ xs)
      → length xs < fuel
      → Returns
          (λ handle' g.
            Ring g handle' (erase_found (find (named vars fuel name) (x ∷ xs)) (x ∷ xs))
            × SameOutside (x ∷ xs) h g)
          (sf_var_delete vars fuel handle name h)
  unfolding sf_var_delete
  sf_var_delete-erase x xs r enough =
      let found = sf_var_search-find x xs r enough in
      elim (Option-cases (find (named vars fuel name) (x ∷ xs))) [
        | inl e ↦ rw (found, e) (handle, h, refl, (r, λ a out. (refl, refl)))
        | inr (p, e) ↦
            rw (found, e) (remove-Ring r p (find-count (named vars fuel name) (x ∷ xs) p e).0)
      ]

-- With an empty table sf_var_search returns without a value: the handle is NULL until the first
-- sf_var_insert.
pub sf_var_search-null :
    (vars : Ptr → Var) (fuel : ℕ) (name : Text) (h : Links)
    → sf_var_search vars (suc fuel) null name h ≡ fault
unfolding sf_var_search walk
sf_var_search-null vars fuel name h = refl
