-- ===== src/Link/Append.antt =====
-- DualLinkAppend and DualLinkPush: a node joins the circle as its last, or as its first.
use spiderframe.Base.{◌≤◌, ◌≡◌, refl, ◌≢◌, ap, ◌∙◌, List, [], ◌∷◌, ◌++◌, arith, append_assoc}
use spiderframe.Link.{update, Ptr, null, Links, Run, ok, dual_link_append, dual_link_push}
use spiderframe.Link.Cycle.{
  Closed, Ring, count, count-append, last_or, SameOutside, prev-last_or, Chain-insert,
  Closed-rotate, count-last_or, count-rotate,
}

-- The run ends normally in a value and a store that satisfy `P`.
abbrev pub Returns : {A : Type 0} → (A → Links → Type 0) → Run A → Type 0
Returns {A} P r = (a : A) × (g : Links) × (r ≡ ok a g) × P a g

-- The store after `item` has joined behind `p`, before `x`.
abbrev joined : Links → Ptr → Ptr → Links
joined h x item =
    let p = h.prev x in
    record {
      next = update (update h.next item x) p item;
      prev = update (update h.prev item p) x item;
    }

append-joined :
    (h : Links) (x item : Ptr)
    → x ≢ null
    → item ≢ null
    → h.prev x ≢ null
    → dual_link_append x item h ≡ ok x (joined h x item)
unfolding dual_link_append
append-joined h x item a b c = ground arith

-- A node on a list without NULL is not NULL.
pub ne-null : (a : Ptr) (xs : List Ptr) → count null xs ≡ 0 → 1 ≤ count a xs → a ≢ null
ne-null a xs absent there e = omega (arith, ap (λ (b : Ptr). count b xs) e)

-- The circle with `item` at its end holds its nodes once, and no NULL.
pub once-append :
    (item : Ptr) (xs : List Ptr)
    → ((a : Ptr) → count a xs ≤ 1)
    → count item xs ≡ 0
    → (a : Ptr) → count a (xs ++ item ∷ []) ≤ 1
once-append item xs once new a = ground (arith, once a, count-append a xs (item ∷ []))

pub present-append :
    (item : Ptr)
    → item ≢ null
    → (xs : List Ptr) → count null xs ≡ 0
    → count null (xs ++ item ∷ []) ≡ 0
present-append item ne xs p = ground (arith, count-append null xs (item ∷ []))

module _ {h : Links} (item : Ptr) (ne : item ≢ null) where
  append-Closed :
      (x : Ptr) (xs : List Ptr)
      → Ring h x (x ∷ xs)
      → count item (x ∷ xs) ≡ 0
      → Closed (joined h x item) (x ∷ xs ++ item ∷ [])
  append-Closed x xs r new =
      let p = h.prev x in
      let e : p ≡ last_or x xs = prev-last_or h x xs x r.closed in
      let there = count-last_or x xs in
      let apart : item ≢ last_or x xs = ground (arith, r.once item) in
      let start : count x xs ≡ 0 = ground (arith, r.once x) in
      rw append_assoc (
        Chain-insert h (joined h x item) item x (ground arith) (ground arith) x xs r.closed
          (λ b m k. ground arith) (ground arith) (ground arith) (ground arith) r.once new start)

  -- DualLinkAppend puts a node that is not NULL and not on the circle at its end, keeps the root
  -- unless the circle was empty, and writes no link but those of the node and of the circle.
  pub append-Ring :
      (root : Ptr) (xs : List Ptr)
      → Ring h root xs
      → count item xs ≡ 0
      → Returns
          (λ r g. Ring g r (xs ++ item ∷ []) × SameOutside (item ∷ xs) h g)
          (dual_link_append root item h)
  unfolding dual_link_append
  append-Ring root [] r new = (
    item,
    record { next = update h.next item item; prev = update h.prev item item },
    ground arith,
    (
      record {
        head = refl;
        closed = ground arith;
        once = once-append item [] (λ a. omega arith) refl;
        present = ground arith;
      },
      λ a out. ground arith,
    ),
  )
  append-Ring root (x ∷ xs) r new =
      let p = last_or x xs in
      let e : h.prev x ≡ p = prev-last_or h x xs x r.closed in
      let ok_x = ne-null x (x ∷ xs) r.present (ground arith) in
      let ok_p : h.prev x ≢ null = rw e (ne-null p (x ∷ xs) r.present (count-last_or x xs)) in
      let r' : Ring h x (x ∷ xs) = record {
        head = refl;
        closed = r.closed;
        once = r.once;
        present = r.present;
      } in
      (
        x,
        joined h x item,
        rw r.head (append-joined h x item ok_x ne ok_p),
        (
          record {
            head = refl;
            closed = append-Closed x xs r' new;
            once = once-append item (x ∷ xs) r.once new;
            present = present-append item ne (x ∷ xs) r.present;
          },
          λ a out.
              let apart : a ≢ h.prev x = λ q.
                omega (arith, count-last_or x xs, ap (λ (b : Ptr). count b (x ∷ xs)) (q ∙ e)) in
              ground arith,
        ),
      )

  -- DualLinkPush puts a node that is not NULL and not on the circle in front, as its root, and
  -- writes no link but those of the node and of the circle.
  pub push-Ring :
      (root : Ptr) (xs : List Ptr)
      → Ring h root xs
      → count item xs ≡ 0
      → Returns
          (λ r g. Ring g r (item ∷ xs) × SameOutside (item ∷ xs) h g)
          (dual_link_push root item h)
  unfolding dual_link_push
  push-Ring root xs r new =
      let (r', g, run, (ring, same)) = append-Ring root xs r new in
      (
        item,
        g,
        rw run,
        (
          record {
            head = refl;
            closed = Closed-rotate g xs (item ∷ []) ring.closed;
            once = λ a. omega (arith, ring.once a, count-rotate a xs (item ∷ []));
            present = omega (arith, ring.present, count-rotate null xs (item ∷ []));
          },
          same,
        ),
      )
