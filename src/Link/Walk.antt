-- ===== src/Link/Walk.antt =====
-- Loops round a circle: the walk from the root until it comes back to it. `Search` of
-- sf_hashmodule.c, `sf_var_search` and the loop of `sf_var_insert` are such walks.
use spiderframe.Base.{
  ℕ, zero, suc, ◌≤◌, ◌<◌, ◌≡◌, subst⁻¹, Bool, true, Option, none, some, List, [], ◌∷◌, ◌++◌, arith,
  ◌==◌, if◌then◌else◌, length,
}
use spiderframe.Link.{Ptr, null, Links, Cmd, ok, out_of_fuel, pure, get_next, ◌>>=◌}
use spiderframe.Link.Cycle.{Chain, Ring, count}

-- The first node from `cur` on that passes the test, before the walk is back at `root`. The loops
-- differ in what they do at a NULL, which no circle holds: `at_null`.
-- The tests here read only what a node carries, never its links.
unfoldable pub walk : Cmd (Option Ptr) → ℕ → (Ptr → Bool) → Ptr → Ptr → Cmd (Option Ptr)
walk at_null zero test root cur = λ _. out_of_fuel
walk at_null (suc k) test root cur =
    if cur == null
    then at_null
    else if test cur
    then pure (some cur)
    else do n ← get_next cur; if n == root then pure none else walk at_null k test root n

-- What the walk looks for, as a function of the nodes in order.
unfoldable pub find : (Ptr → Bool) → List Ptr → Option Ptr
find test [] = none
find test (x ∷ xs) = if test x then some x else find test xs

module _ (at_null : Cmd (Option Ptr)) (test : Ptr → Bool) (h : Links) (root : Ptr) where
  walk-Chain :
      (k cur : Ptr) (xs : List Ptr)
      → Chain h cur (xs ++ root ∷ [])
      → count null (cur ∷ xs) ≡ 0
      → count root xs ≡ 0
      → length xs < k
      → walk at_null k test root cur h ≡ ok (find test (cur ∷ xs)) h
  unfolding walk find
  walk-Chain zero cur xs s ok_null fresh fuel = absurd (omega arith)
  walk-Chain (suc k) cur [] s ok_null fresh fuel = ground arith
  walk-Chain (suc k) cur (x ∷ xs) s ok_null fresh fuel = ground (arith, walk-Chain k x xs)

-- On a circle that is not empty, with fuel for its nodes, the walk from the root finds the first
-- node that passes the test, or none, and changes no link; it never comes to a NULL.
pub walk_lem :
    (at_null : Cmd (Option Ptr)) (test : Ptr → Bool) (h : Links) (root k x : Ptr) (xs : List Ptr)
    → Ring h root (x ∷ xs)
    → length xs < k
    → walk at_null k test root root h ≡ ok (find test (x ∷ xs)) h
walk_lem at_null test h root k x xs r fuel =
    subst⁻¹ (λ q. walk at_null k test q q h ≡ ok (find test (x ∷ xs)) h) r.head
      (walk-Chain at_null test h x k x xs r.closed r.present (ground (arith, r.once x)) fuel)

-- What is found is a node of the list, and passes the test.
pub find-count :
    (test : Ptr → Bool) (xs : List Ptr) (p : Ptr)
    → find test xs ≡ some p
    → (1 ≤ count p xs) × (test p ≡ true)
unfolding find
find-count test [] p e = ground arith
find-count test (x ∷ xs) p e = ground (arith, find-count test xs p)
