-- ===== src/Var/Insert.antt =====
-- sf_var_insert on a circle of variables.
use spiderframe.Base.{
  ℕ, zero, suc, ◌<◌, ◌≡◌, ◌≢◌, ◌∙◌, Bool, none, List, [], ◌∷◌, ◌++◌, arith, length, Option-cases,
  inl, inr,
}
use spiderframe.Link.{Ptr, null, Links, ok, pure}
use spiderframe.Link.Append.{Returns, append-Ring}
use spiderframe.Link.Cycle.{Ring, count, SameOutside}
use spiderframe.Link.Remove.{erase, remove-Ring, count-erase-le}
use spiderframe.Link.Walk.{walk, find, find-count, walk_lem}
use spiderframe.Var.{Var, named, sf_var_insert}
use spiderframe.Var.Search.{erase_found}

-- The walk of the insertion, on the empty table too.
walk-find :
    (test : Ptr → Bool) (h : Links) (handle fuel : ℕ) (xs : List Ptr)
    → Ring h handle xs
    → length xs < fuel
    → walk (pure none) fuel test handle handle h ≡ ok (find test xs) h
unfolding walk find
walk-find test h handle zero [] r enough = absurd (omega arith)
walk-find test h handle (suc k) [] r enough = rw r.head
walk-find test h handle k (x ∷ xs) r enough =
    unfold find in walk_lem (pure none) test h handle k x xs r (omega arith)

module _ (vars : Ptr → Var) (fuel : ℕ) {h : Links} {handle : Ptr} (v : Ptr) (xs : List Ptr) where
  -- sf_var_insert takes the first record of the same name out, if there is one, and puts the new
  -- record at the end.
  pub sf_var_insert-Ring :
      Ring h handle xs
      → v ≢ null
      → count v xs ≡ 0
      → length xs < fuel
      → Returns
          (λ handle' g.
            Ring g handle' (erase_found (find (named vars fuel (vars v).name) xs) xs ++ v ∷ [])
            × SameOutside (v ∷ xs) h g)
          (sf_var_insert vars fuel handle v h)
  unfolding sf_var_insert
  sf_var_insert-Ring r ne new enough =
      let test = named vars fuel (vars v).name in
      let found = walk-find test h handle fuel xs r enough in
      elim (Option-cases (find test xs)) [
        | inl e ↦ rw (found, e) (append-Ring {h = h} v ne handle xs r new)
        | inr (p, e) ↦
            let (root, g, run, (ring, same)) = remove-Ring r p (find-count test xs p e).0 in
            let (root', g', run', (ring', same')) =
              append-Ring {h = g} v ne root (erase p xs) ring
                (omega (arith, count-erase-le v p xs)) in
            rw (found, e)
              (
                root',
                g',
                rw (run, run'),
                (
                  ring',
                  λ a out.
                      let late = same' a (omega (arith, count-erase-le a p xs)) in
                      let early = same a (omega arith) in (late.0 ∙ early.0, late.1 ∙ early.1),
                ),
              )
      ]
