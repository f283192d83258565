-- ===== src/Var/Map.antt =====
-- The variable table as a map from names to values.
use spiderframe.Base.{
  ℕ, ◌+◌, ◌≤◌, ◌<◌, ◌≡◌, refl, ◌≢◌, ap, sym, subst, ◌∙◌, Bool, true, Option, none, some, List, [],
  ◌∷◌, ◌++◌, arith, Text, text_eq, text_eq→eq, length, inl, inr, Option-cases, if◌then◌else◌,
  Bool-cases,
}
use mathlib.Core.Option
use mathlib.Core.Option.{or_else}
use spiderframe.Link.{Ptr, null, Links, ok}
use spiderframe.Link.Append.{Returns}
use spiderframe.Link.Cycle.{Ring, count}
use spiderframe.Link.Remove.{erase}
use spiderframe.Link.Walk.{find, find-count}
use spiderframe.Var.{Var, sf_var_search, sf_var_insert, sf_var_delete}
use spiderframe.Var.Search.{erase_found, sf_var_search-find, sf_var_delete-erase}
use spiderframe.Var.Insert.{sf_var_insert-Ring}

drop_first : (Ptr → Bool) → List Ptr → List Ptr
drop_first test [] = []
drop_first test (x ∷ xs) = if test x then xs else x ∷ drop_first test xs

erase_found-drop_first :
    (test : Ptr → Bool) (xs : List Ptr) → erase_found (find test xs) xs ≡ drop_first test xs
unfolding find drop_first erase
erase_found-drop_first test [] = refl
erase_found-drop_first test (x ∷ xs) = elim (Bool-cases (test x)) [
  | inl e ↦ ground arith
  | inr e ↦ elim (Option-cases (find test xs)) [
    | inl f ↦ ground (arith, erase_found-drop_first test xs)
    | inr (p, f) ↦ ground (arith, erase_found-drop_first test xs, find-count test xs p f)
  ]
]

module _ (vars : Ptr → Var) where
  abbrev pub has_name : Text → Ptr → Bool
  has_name n p = text_eq (vars p).name n

  -- How many records have the name.
  unfoldable pub count_name : Text → List Ptr → ℕ
  count_name n [] = 0
  count_name n (x ∷ xs) = (if has_name n x then 1 else 0) + count_name n xs

  -- The value of a name: that of the first record that has it.
  unfoldable pub lookup : Text → List Ptr → Option Text
  lookup n [] = none
  lookup n (x ∷ xs) = if has_name n x then some (vars x).value else lookup n xs

  lookup-none : (n : Text) (xs : List Ptr) → count_name n xs ≡ 0 → lookup n xs ≡ none
  unfolding count_name lookup
  lookup-none n [] h = refl
  lookup-none n (x ∷ xs) h = ground (arith, lookup-none n xs)

  -- Comparing with two equal names gives the same.
  text_eq_congr : (a b n : Text) → text_eq a b ≡ true → text_eq a n ≡ text_eq b n
  text_eq_congr a b n e = ap (λ (t : Text). text_eq t n) (text_eq→eq a b e)

  count_name_congr :
      (m n : Text) (xs : List Ptr) → text_eq m n ≡ true → count_name m xs ≡ count_name n xs
  count_name_congr m n xs e = ap (λ (t : Text). count_name t xs) (text_eq→eq m n e)

  lookup-drop_first :
      (m n : Text) (xs : List Ptr)
      → count_name m xs ≤ 1
      → lookup n (drop_first (has_name m) xs) ≡ (if text_eq m n then none else lookup n xs)
  unfolding count_name lookup drop_first
  lookup-drop_first m n [] h = ground arith
  lookup-drop_first m n (x ∷ xs) h = elim (Bool-cases (has_name m x)) [
    | inl e ↦
        let same = text_eq_congr (vars x).name m n e in
        ground (arith, lookup-none n xs, count_name_congr m n xs)
    | inr e ↦ ground (
      arith,
      lookup-drop_first m n xs,
      text_eq→eq m n,
      ap (λ (t : Text). text_eq (vars x).name t) {x = m} {y = n},
    )
  ]

  count_name-drop_first :
      (m n : Text) (xs : List Ptr) → count_name n (drop_first (has_name m) xs) ≤ count_name n xs
  unfolding count_name drop_first
  count_name-drop_first m n [] = omega arith
  count_name-drop_first m n (x ∷ xs) = ground (arith, count_name-drop_first m n xs)

  -- A name that is dropped once, where it stands once at most, is gone.
  count_name-dropped :
      (m : Text) (xs : List Ptr)
      → count_name m xs ≤ 1
      → count_name m (drop_first (has_name m) xs) ≡ 0
  unfolding count_name drop_first
  count_name-dropped m [] h = refl
  count_name-dropped m (x ∷ xs) h = ground (arith, count_name-dropped m xs)

  lookup-append_one :
      (n : Text) (xs : List Ptr) (v : Ptr)
      → lookup n (xs ++ v ∷ [])
        ≡ or_else (lookup n xs) (if has_name n v then some (vars v).value else none)
  unfolding lookup or_else
  lookup-append_one n [] v = ground arith
  lookup-append_one n (x ∷ xs) v = ground (arith, lookup-append_one n xs v)

  count_name-append_one :
      (n : Text) (xs : List Ptr) (v : Ptr)
      → count_name n (xs ++ v ∷ []) ≡ count_name n xs + (if has_name n v then 1 else 0)
  unfolding count_name
  count_name-append_one n [] v = omega arith
  count_name-append_one n (x ∷ xs) v = omega (arith, count_name-append_one n xs v)

  -- The nodes `xs` stand for the map `m`: each name is there once at most.
  pub record Maps (xs : List Ptr) (m : Text → Option Text) : Type 0 where
    pub unique : (n : Text) → count_name n xs ≤ 1
    pub reads : (n : Text) → lookup n xs ≡ m n

  abbrev pub updated : (Text → Option Text) → Text → Option Text → Text → Option Text
  updated m name value n = if text_eq name n then value else m n

  insert-Maps :
      (xs : List Ptr) (m : Text → Option Text) (v : Ptr)
      → Maps xs m
      → Maps
          (drop_first (has_name (vars v).name) xs ++ v ∷ [])
          (updated m (vars v).name (some (vars v).value))
  unfolding or_else
  insert-Maps xs m v k =
      let name = (vars v).name in
      let less = drop_first (has_name name) xs in
      record {
        unique = λ n. elim (Bool-cases (text_eq name n)) [
          | inl e ↦ ground (
            arith,
            count_name-append_one n less v,
            count_name-dropped name xs (k.unique name),
            count_name_congr name n less e,
          )
          | inr e ↦
              ground
                (arith, count_name-append_one n less v, count_name-drop_first name n xs, k.unique n)
        ];
        reads = λ n. ground (
          arith,
          lookup-append_one n less v,
          lookup-drop_first name n xs (k.unique name),
          k.reads n,
        );
      }

  delete-Maps :
      (xs : List Ptr) (m : Text → Option Text) (name : Text)
      → Maps xs m
      → Maps (drop_first (has_name name) xs) (updated m name none)
  delete-Maps xs m name k = record {
    unique = λ n. omega (arith, k.unique n, count_name-drop_first name n xs);
    reads = λ n. ground (arith, lookup-drop_first name n xs (k.unique name), k.reads n);
  }

  -- What a search returns, as a value.
  lookup-find :
      (n : Text) (xs : List Ptr)
      → lookup n xs ≡ Option.map (λ p. (vars p).value) (find (has_name n) xs)
  unfolding lookup find
  lookup-find n [] = refl
  lookup-find n (x ∷ xs) = elim (Bool-cases (has_name n x)) [
    | inl e ↦ rw e
    | inr e ↦ rw e (lookup-find n xs)
  ]

  module _ (fuel : ℕ) {h : Links} {handle : Ptr} {m : Text → Option Text} where
    -- On a circle of variables that is not empty and whose names are all different, with enough
    -- fuel, sf_var_search returns a record with the value of the name in the map, or NULL if the
    -- name has none; it changes no link.
    pub sf_var_search-Maps :
        (x : Ptr) (xs : List Ptr) (name : Text)
        → Ring h handle (x ∷ xs)
        → Maps (x ∷ xs) m
        → length xs < fuel
        → (found : Option Ptr) × (sf_var_search vars fuel handle name h ≡ ok found h)
          × (Option.map (λ p. (vars p).value) found ≡ m name)
    sf_var_search-Maps x xs name r k enough = (
      find (has_name name) (x ∷ xs),
      sf_var_search-find vars fuel name x xs r enough,
      sym (lookup-find name (x ∷ xs)) ∙ k.reads name,
    )

    -- On a circle of variables whose names are all different, with fuel above their number,
    -- sf_var_insert of a record that is not NULL and not on the circle sets its name to its value
    -- in the map and changes no other name; the names are all different again.
    pub sf_var_insert-Maps :
        (xs : List Ptr) (v : Ptr)
        → Ring h handle xs
        → Maps xs m
        → v ≢ null
        → count v xs ≡ 0
        → length xs < fuel
        → Returns
            (λ handle' g.
              (ys : List Ptr) × Ring g handle' ys
              × Maps ys (updated m (vars v).name (some (vars v).value)))
            (sf_var_insert vars fuel handle v h)
    sf_var_insert-Maps xs v r k ne new enough =
        let (handle', g, run, (ring, same)) = sf_var_insert-Ring vars fuel v xs r ne new enough in
        let ys = drop_first (has_name (vars v).name) xs ++ v ∷ [] in
        let e = erase_found-drop_first (has_name (vars v).name) xs in
        (
          handle',
          g,
          run,
          (ys, subst (λ l. Ring g handle' (l ++ v ∷ [])) e ring, insert-Maps xs m v k),
        )

    -- On a circle of variables that is not empty and whose names are all different, with enough
    -- fuel, sf_var_delete unsets the name in the map and changes no other name; the names are all
    -- different again.
    pub sf_var_delete-Maps :
        (x : Ptr) (xs : List Ptr) (name : Text)
        → Ring h handle (x ∷ xs)
        → Maps (x ∷ xs) m
        → length xs < fuel
        → Returns
            (λ handle' g. (ys : List Ptr) × Ring g handle' ys × Maps ys (updated m name none))
            (sf_var_delete vars fuel handle name h)
    sf_var_delete-Maps x xs name r k enough =
        let (handle', g, run, (ring, same)) = sf_var_delete-erase vars fuel name x xs r enough in
        let e = erase_found-drop_first (has_name name) (x ∷ xs) in
        (
          handle',
          g,
          run,
          (
            drop_first (has_name name) (x ∷ xs),
            subst (λ l. Ring g handle' l) e ring,
            delete-Maps (x ∷ xs) m name k,
          ),
        )
