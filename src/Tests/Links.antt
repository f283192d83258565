-- ===== src/Tests/Links.antt =====
-- The lists of sf_linkmodule.c and the variables of sf_var.c on small stores.
use spiderframe.Base.{
  ◌≤◌, ◌≡◌, refl, Option, none, some, List, [], ◌∷◌, arith, Text, text_eq, text_eq→eq, subst,
  Bool-cases, inl, inr, bytes, if◌then◌else◌, ◌==◌,
}
use mathlib.Core.Option
use spiderframe.Link.{Ptr, Links, ok, Queue, dual_link_append, dual_link_remove}
use spiderframe.Link.Cycle.{Ring, SameOutside}
use spiderframe.Link.Append.{Returns, append-Ring}
use spiderframe.Link.Remove.{erase, remove-Ring}
use spiderframe.Link.Single.{Queued}
use spiderframe.Var.{Var, sf_var_search, sf_var_insert, sf_var_delete}
use spiderframe.Var.Map.{
  Maps, lookup, count_name, updated, sf_var_search-Maps, sf_var_insert-Maps, sf_var_delete-Maps,
}

-- Node 1 is followed by 2, and 2 by 1.
abbrev swap : Ptr → Ptr
swap a = if a == 1 then 2 else if a == 2 then 1 else 0

abbrev two : Links
two = record { next = swap; prev = swap }

two-Ring : Ring two 1 (1 ∷ 2 ∷ [])
two-Ring = record {
  head = refl;
  closed = (refl, refl, (refl, refl, tt));
  once = λ a. ground arith;
  present = refl;
}

append-Ring_example :
    Returns
      (λ r g. Ring g r (1 ∷ 2 ∷ 3 ∷ []) × SameOutside (3 ∷ 1 ∷ 2 ∷ []) two g)
      (dual_link_append 1 3 two)
append-Ring_example = append-Ring {h = two} 3 (ground arith) 1 (1 ∷ 2 ∷ []) two-Ring refl

remove-Ring_example :
    Returns
      (λ r g. Ring g r (erase 1 (1 ∷ 2 ∷ [])) × SameOutside (1 ∷ 2 ∷ []) two g)
      (dual_link_remove 1 1 two)
remove-Ring_example = remove-Ring two-Ring 1 (ground arith)

-- A queue of the nodes 1 and 2.
abbrev line : Links
line = record { next = λ a. if a == 1 then 2 else 0; prev = λ a. 0 }

abbrev two_in_line : Queue
two_in_line = record { root = 1; tail = 2 }

line-Queued : Queued line two_in_line (1 ∷ 2 ∷ [])
line-Queued = record {
  linked = (refl, refl, (refl, refl));
  once = λ a. ground arith;
  present = refl;
}

-- The variables `$a` and `$b`, and a new value of `$a`.
abbrev vars : Ptr → Var
vars p =
    if p == 1
    then record { name = bytes "$a"; value = bytes "1" }
    else if p == 2
    then record { name = bytes "$b"; value = bytes "2" }
    else record { name = bytes "$a"; value = bytes "3" }

abbrev values : Text → Option Text
values = λ n. lookup vars n (1 ∷ 2 ∷ [])

one_of_two : (n : Text) → count_name vars n (1 ∷ 2 ∷ []) ≤ 1
unfolding count_name
one_of_two n = elim (Bool-cases (text_eq (bytes "$a") n)) [
  | inl e ↦
      subst (λ (t : Text). count_name vars t (1 ∷ 2 ∷ []) ≤ 1) (text_eq→eq (bytes "$a") n e)
        (omega arith)
  | inr e ↦ rw e (ground arith)
]

values-Maps : Maps vars (1 ∷ 2 ∷ []) values
values-Maps = record { unique = one_of_two; reads = λ n. refl }

sf_var_search-Maps_example :
    (found : Option Ptr) × (sf_var_search vars 2 1 (bytes "$b") two ≡ ok found two)
    × (Option.map (λ p. (vars p).value) found ≡ values (bytes "$b"))
sf_var_search-Maps_example =
    sf_var_search-Maps vars 2 1 (2 ∷ []) (bytes "$b") two-Ring values-Maps (omega arith)

sf_var_insert-Maps_example :
    Returns
      (λ handle g.
        (ys : List Ptr) × Ring g handle ys
        × Maps vars ys (updated vars values (bytes "$a") (some (bytes "3"))))
      (sf_var_insert vars 3 1 3 two)
sf_var_insert-Maps_example =
    sf_var_insert-Maps vars 3 (1 ∷ 2 ∷ []) 3 two-Ring values-Maps (ground arith) refl (omega arith)

sf_var_delete-Maps_example :
    Returns
      (λ handle g.
        (ys : List Ptr) × Ring g handle ys × Maps vars ys (updated vars values (bytes "$a") none))
      (sf_var_delete vars 2 1 (bytes "$a") two)
sf_var_delete-Maps_example =
    sf_var_delete-Maps vars 2 1 (2 ∷ []) (bytes "$a") two-Ring values-Maps (omega arith)
