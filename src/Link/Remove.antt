-- ===== src/Link/Remove.antt =====
-- DualLinkRemove: a node leaves the circle.
use spiderframe.Base.{
  ◌+◌, ◌≤◌, ◌≡◌, ◌≢◌, ap, subst⁻¹, ◌∙◌, List, [], ◌∷◌, ◌++◌, arith, ◌==◌, if◌then◌else◌,
  append_assoc, Bool-cases, inl, inr,
}
use spiderframe.Link.{update, Ptr, null, Links, ok, dual_link_remove}
use spiderframe.Link.Cycle.{
  Closed, Chain, Chain-prefix, Ring, count, count-append, SameOutside, head_or_null, prev-last_or,
  Chain-unlink, Closed-rotate, count-last_or,
}
use spiderframe.Link.Append.{Returns, ne-null}

unfoldable pub erase : Ptr → List Ptr → List Ptr
erase a [] = []
erase a (x ∷ xs) = if a == x then xs else x ∷ erase a xs

pub count-erase :
    (a b : Ptr) (xs : List Ptr)
    → 1 ≤ count b xs
    → count a (erase b xs) + (if a == b then 1 else 0) ≡ count a xs
unfolding erase
count-erase a b [] h = absurd (omega arith)
count-erase a b (x ∷ xs) h = ground (arith, count-erase a b xs)

pub count-erase-le : (a b : Ptr) (xs : List Ptr) → count a (erase b xs) ≤ count a xs
unfolding erase
count-erase-le a b [] = omega arith
count-erase-le a b (x ∷ xs) = ground (arith, count-erase-le a b xs)

-- A member of a list, with what stands before and behind its first occurrence.
record Split (a : Ptr) (xs : List Ptr) : Type 0 where
  before : List Ptr
  behind : List Ptr
  parts : xs ≡ before ++ a ∷ behind
  first : erase a xs ≡ before ++ behind

Split-at : (a : Ptr) (xs : List Ptr) → 1 ≤ count a xs → Split a xs
unfolding erase
Split-at a [] h = absurd (omega arith)
Split-at a (x ∷ xs) h = elim (Bool-cases (a == x)) [
  | inl e ↦ record { before = []; behind = xs; parts = ground arith; first = rw e }
  | inr e ↦
      let s = Split-at a xs (ground arith) in
      record {
        before = x ∷ s.before;
        behind = s.behind;
        parts = ap (λ l. x ∷ l) s.parts;
        first = rw (e, s.first);
      }
]

-- The store after `item` has left its neighbours.
abbrev left : Links → Ptr → Links
left h item = record {
  next = update h.next (h.prev item) (h.next item);
  prev = update h.prev (h.next item) (h.prev item);
}

-- The last node of a circle leaves it.
left-Closed :
    (h : Links) (item : Ptr) (xs : List Ptr)
    → Closed h (xs ++ item ∷ [])
    → ((a : Ptr) → count a (xs ++ item ∷ []) ≤ 1)
    → Closed (left h item) xs
left-Closed h item [] c once = tt
left-Closed h item (x ∷ xs) c once =
    let c' : Chain h x (xs ++ item ∷ x ∷ []) = rw append_assoc at c in
    let (front, n, _) = Chain-prefix h x xs item x c' in
    let p = prev-last_or h x xs item front in
    let same : (a : Ptr) → count a (x ∷ xs) + count a (item ∷ []) ≤ 1 =
      λ a. rw (← count-append a (x ∷ xs) (item ∷ [])) (once a) in
    Chain-unlink h (left h item) item x (ground arith) x xs c' (λ b k. ground arith) (ground arith)
      (ground arith) (λ a. omega (arith, same a)) (ground (arith, same x))

module _ (h : Links) (root item : Ptr) where
  abbrev root_after : Ptr
  root_after = if root == item then (if h.next item == item then null else h.next item) else root

  remove-left :
      item ≢ null
      → h.prev item ≢ null
      → h.next item ≢ null
      → dual_link_remove root item h ≡ ok root_after (left h item)
  unfolding dual_link_remove
  remove-left a b c = ground arith

-- What an operation asks of the circle, seen from a node on it.
pub record Neighbours (h : Links) (item : Ptr) (before behind : List Ptr) : Type 0 where
  pub closed : Closed h ((behind ++ before) ++ item ∷ [])
  pub next_in : 1 ≤ count (h.next item) (before ++ item ∷ behind)
  pub prev_in : 1 ≤ count (h.prev item) (before ++ item ∷ behind)

next_on_circle :
    (h : Links) (x : Ptr) (xs : List Ptr) → Closed h (x ∷ xs) → 1 ≤ count (h.next x) (x ∷ xs)
next_on_circle h x [] s = ground arith
next_on_circle h x (y ∷ ys) s = ground arith

prev_on_circle :
    (h : Links) (x : Ptr) (xs : List Ptr) → Closed h (x ∷ xs) → 1 ≤ count (h.prev x) (x ∷ xs)
prev_on_circle h x xs s =
    omega (arith, ap (λ (b : Ptr). count b (x ∷ xs)) (prev-last_or h x xs x s), count-last_or x xs)

count-turned :
    (a item : Ptr) (before behind : List Ptr)
    → count a (item ∷ (behind ++ before)) ≡ count a (before ++ item ∷ behind)
count-turned a item before behind =
    omega (arith, count-append a before (item ∷ behind), count-append a behind before)

neighbours :
    (h : Links) (item : Ptr) (before behind : List Ptr)
    → Closed h (before ++ item ∷ behind)
    → Neighbours h item before behind
neighbours h item before behind c =
    let c1 : Closed h (item ∷ (behind ++ before)) = Closed-rotate h before (item ∷ behind) c in
    record {
      closed = Closed-rotate h (item ∷ []) (behind ++ before) c1;
      next_in =
          rw (← count-turned (h.next item) item before behind)
            (next_on_circle h item (behind ++ before) c1);
      prev_in =
          rw (← count-turned (h.prev item) item before behind)
            (prev_on_circle h item (behind ++ before) c1);
    }

-- The root after a removal is the first of the nodes that stay.
root_after-head :
    (h : Links) (item : Ptr) (before behind : List Ptr)
    → Closed h (before ++ item ∷ behind)
    → ((a : Ptr) → count a (before ++ item ∷ behind) ≤ 1)
    → root_after h (head_or_null (before ++ item ∷ behind)) item ≡ head_or_null (before ++ behind)
root_after-head h item [] [] c once = ground arith
root_after-head h item [] (d ∷ ds) c once = ground (arith, once item)
root_after-head h item (b ∷ bs) ds c once =
    ground (arith, once item, count-append item bs (item ∷ ds))

module _ {h : Links} {root : Ptr} {xs : List Ptr} (r : Ring h root xs) (item : Ptr)
    (there : 1 ≤ count item xs) where
  -- DualLinkRemove of a node on a circle takes it out: the circle of the others in order is left,
  -- with the next node as its root if the root was removed, and no root if it was the last. No
  -- link is written but those of the circle.
  pub remove-Ring :
      Returns
        (λ r' g. Ring g r' (erase item xs) × SameOutside xs h g)
        (dual_link_remove root item h)
  remove-Ring =
      let s = Split-at item xs there in
      let bs = s.before in
      let ds = s.behind in
      let c : Closed h (bs ++ item ∷ ds) = rw s.parts at r.closed in
      let once : (a : Ptr) → count a (bs ++ item ∷ ds) ≤ 1 = rw s.parts at r.once in
      let nb = neighbours h item bs ds c in
      let ok_item = ne-null item xs r.present there in
      let prev_in : 1 ≤ count (h.prev item) xs =
        subst⁻¹ (λ l. 1 ≤ count (h.prev item) l) s.parts nb.prev_in in
      let next_in : 1 ≤ count (h.next item) xs =
        subst⁻¹ (λ l. 1 ≤ count (h.next item) l) s.parts nb.next_in in
      let ok_prev = ne-null (h.prev item) xs r.present prev_in in
      let ok_next = ne-null (h.next item) xs r.present next_in in
      let turned : (a : Ptr) → count a ((ds ++ bs) ++ item ∷ []) ≤ 1 = λ a.
        omega (arith, once a, count-turned a item bs ds, count-append a (ds ++ bs) (item ∷ [])) in
      let closed : Closed (left h item) (ds ++ bs) =
        left-Closed h item (ds ++ bs) nb.closed turned in
      let head : root ≡ head_or_null (bs ++ item ∷ ds) = rw s.parts at r.head in
      let root_after_eq : root_after h root item
          ≡ root_after h (head_or_null (bs ++ item ∷ ds)) item =
        ap (λ (q : Ptr). root_after h q item) head in
      (
        root_after h root item,
        left h item,
        remove-left h root item ok_item ok_prev ok_next,
        (
          record {
            head = rw s.first (root_after_eq ∙ root_after-head h item bs ds c once);
            closed = rw s.first (Closed-rotate (left h item) ds bs closed);
            once = λ a. omega (arith, r.once a, count-erase-le a item xs);
            present = omega (arith, r.present, count-erase-le null item xs);
          },
          λ a out.
              let p : a ≢ h.prev item =
                λ e. omega (arith, prev_in, ap (λ (b : Ptr). count b xs) e) in
              let n : a ≢ h.next item =
                λ e. omega (arith, next_in, ap (λ (b : Ptr). count b xs) e) in
              ground arith,
        ),
      )
