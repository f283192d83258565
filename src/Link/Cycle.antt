-- ===== src/Link/Cycle.antt =====
-- Circular doubly linked lists as lists of addresses.
use spiderframe.Base.{
  ℕ, ◌+◌, ◌≤◌, ◌≡◌, ◌≢◌, List, [], ◌∷◌, ◌++◌, arith, ◌==◌, if◌then◌else◌, append_assoc, append-nil,
}
use spiderframe.Link.{Ptr, null, Links}

-- From `a` the nodes `bs` follow one another, forwards and backwards.
abbrev pub Chain : Links → Ptr → List Ptr → Type 0
Chain h a [] = Unit
Chain h a (b ∷ bs) = (h.next a ≡ b) × (h.prev b ≡ a) × Chain h b bs

abbrev pub Closed : Links → List Ptr → Type 0
Closed h [] = Unit
Closed h (x ∷ xs) = Chain h x (xs ++ x ∷ [])

abbrev pub count : Ptr → List Ptr → ℕ
count a [] = 0
count a (x ∷ xs) = (if a == x then 1 else 0) + count a xs

abbrev pub head_or_null : List Ptr → Ptr
head_or_null [] = null
head_or_null (x ∷ xs) = x

-- `root` is the first of the distinct nodes `xs`, which form a circle.
pub record Ring (h : Links) (root : Ptr) (xs : List Ptr) : Type 0 where
  pub head : root ≡ head_or_null xs
  pub closed : Closed h xs
  pub once : (a : Ptr) → count a xs ≤ 1
  pub present : count null xs ≡ 0

-- `g` differs from `h` at most at the nodes of `xs`.
abbrev pub SameOutside : List Ptr → Links → Links → Type 0
SameOutside xs h g = (a : Ptr) → count a xs ≡ 0 → (g.next a ≡ h.next a) × (g.prev a ≡ h.prev a)

pub count-append : (a : Ptr) (xs ys : List Ptr) → count a (xs ++ ys) ≡ count a xs + count a ys
count-append a [] ys = omega arith
count-append a (x ∷ xs) ys = omega (arith, count-append a xs ys)

abbrev pub last_or : Ptr → List Ptr → Ptr
last_or a [] = a
last_or a (b ∷ bs) = last_or b bs

pub count-last_or : (a : Ptr) (bs : List Ptr) → 1 ≤ count (last_or a bs) (a ∷ bs)
count-last_or a [] = ground arith
count-last_or a (b ∷ bs) = omega (arith, count-last_or b bs)

module _ (h : Links) where
  pub Chain-snoc :
      (a : Ptr) (bs : List Ptr) (x c : Ptr)
      → Chain h a (bs ++ x ∷ [])
      → h.next x ≡ c
      → h.prev c ≡ x
      → Chain h a (bs ++ x ∷ c ∷ [])
  Chain-snoc a [] x c s n p = (s.0, s.1, (n, p, tt))
  Chain-snoc a (b ∷ bs) x c s n p = (s.0, s.1, Chain-snoc b bs x c s.2 n p)

  -- What stands before the end of a chain.
  pub prev-last_or :
      (a : Ptr) (bs : List Ptr) (z : Ptr) → Chain h a (bs ++ z ∷ []) → h.prev z ≡ last_or a bs
  prev-last_or a [] z s = s.1
  prev-last_or a (b ∷ bs) z s = prev-last_or b bs z s.2

  pub next-last_or :
      (a : Ptr) (bs : List Ptr) (z : Ptr) → Chain h a (bs ++ z ∷ []) → h.next (last_or a bs) ≡ z
  next-last_or a [] z s = s.0
  next-last_or a (b ∷ bs) z s = next-last_or b bs z s.2

  pub Chain-prefix :
      (a : Ptr) (bs : List Ptr) (y z : Ptr)
      → Chain h a (bs ++ y ∷ z ∷ [])
      → Chain h a (bs ++ y ∷ []) × (h.next y ≡ z) × (h.prev z ≡ y)
  Chain-prefix a [] y z s = ((s.0, s.1, tt), s.2.0, s.2.1)
  Chain-prefix a (b ∷ bs) y z s =
      let (front, n, p) = Chain-prefix b bs y z s.2 in ((s.0, s.1, front), n, p)

  pub Closed-rotate_one : (x : Ptr) (xs : List Ptr) → Closed h (x ∷ xs) → Closed h (xs ++ x ∷ [])
  Closed-rotate_one x [] s = s
  Closed-rotate_one x (y ∷ ys) s = rw append_assoc (Chain-snoc y ys x y s.2 s.0 s.1)

  -- A circle may be read from any of its nodes.
  pub Closed-rotate : (xs ys : List Ptr) → Closed h (xs ++ ys) → Closed h (ys ++ xs)
  Closed-rotate [] ys s = rw append-nil s
  Closed-rotate (x ∷ xs) ys s =
      let turned : Closed h (xs ++ (ys ++ x ∷ [])) =
        rw (← append_assoc) (Closed-rotate_one x (xs ++ ys) s) in
      rw append_assoc at (Closed-rotate xs (ys ++ x ∷ []) turned)

-- The order of the nodes on the circle does not matter to their count.
pub count-rotate : (a : Ptr) (xs ys : List Ptr) → count a (xs ++ ys) ≡ count a (ys ++ xs)
count-rotate a xs ys = omega (arith, count-append a xs ys, count-append a ys xs)

module _ (h g : Links) (y z : Ptr) (same_prev : (b : Ptr) → b ≢ y → b ≢ z → g.prev b ≡ h.prev b)
    (back : g.prev z ≡ y) where
  -- `y` is put between the last node of a chain and its end `z`.
  pub Chain-insert :
      (a : Ptr) (bs : List Ptr)
      → Chain h a (bs ++ z ∷ [])
      → ((b : Ptr) → b ≢ y → b ≢ last_or a bs → g.next b ≡ h.next b)
      → g.next (last_or a bs) ≡ y
      → g.next y ≡ z
      → g.prev y ≡ last_or a bs
      → ((b : Ptr) → count b (a ∷ bs) ≤ 1)
      → count y (a ∷ bs) ≡ 0
      → count z bs ≡ 0
      → Chain g a (bs ++ y ∷ z ∷ [])
  Chain-insert a [] s same n1 n2 p1 once new end = (n1, p1, (n2, back, tt))
  Chain-insert a (b ∷ bs) s same n1 n2 p1 once new end =
      let p = last_or b bs in
      let seen = count-last_or b bs in
      let apart : a ≢ p = ground (arith, once p) in
      (
        ground (arith, same a),
        ground (arith, same_prev b),
        Chain-insert b bs s.2 same n1 n2 p1 (λ c. omega (arith, once c)) (omega arith)
            (omega arith),
      )

module _ (h g : Links) (y z : Ptr) (same_prev : (b : Ptr) → b ≢ z → g.prev b ≡ h.prev b) where
  -- `y` is taken out from before the end `z` of a chain.
  pub Chain-unlink :
      (a : Ptr) (bs : List Ptr)
      → Chain h a (bs ++ y ∷ z ∷ [])
      → ((b : Ptr) → b ≢ last_or a bs → g.next b ≡ h.next b)
      → g.next (last_or a bs) ≡ z
      → g.prev z ≡ last_or a bs
      → ((b : Ptr) → count b (a ∷ bs) ≤ 1)
      → count z bs ≡ 0
      → Chain g a (bs ++ z ∷ [])
  Chain-unlink a [] s same n p once end = (n, p, tt)
  Chain-unlink a (b ∷ bs) s same n p once end =
      let seen = count-last_or b bs in
      let apart : a ≢ last_or b bs = ground (arith, once (last_or b bs)) in
      (
        ground (arith, same a),
        ground (arith, same_prev b),
        Chain-unlink b bs s.2 same n p (λ c. omega (arith, once c)) (omega arith),
      )
