-- ===== src/Link/Single.antt =====
-- SingleLinkAppend and SingleLinkNext: a first-in first-out queue.
use spiderframe.Base.{tail, ◌≤◌, ◌≡◌, refl, ◌≢◌, ap, ◌∙◌, List, [], ◌∷◌, ◌++◌, arith}
use spiderframe.Link.{update, Ptr, null, Links, Queue, single_link_append, single_link_next}
use spiderframe.Link.Cycle.{count, last_or, count-last_or, SameOutside, head_or_null}
use spiderframe.Link.Append.{Returns, ne-null, once-append, present-append}

-- From `a` the nodes `bs` follow, and the last has no successor.
abbrev pub Follows : Links → Ptr → List Ptr → Type 0
Follows h a [] = h.next a ≡ null
Follows h a (b ∷ bs) = (h.next a ≡ b) × Follows h b bs

abbrev pub Linked : Links → Queue → List Ptr → Type 0
Linked h q [] = (q.root ≡ null) × (q.tail ≡ null)
Linked h q (x ∷ xs) = (q.root ≡ x) × (q.tail ≡ last_or x xs) × Follows h x xs

-- `q` holds the distinct nodes `xs`, the oldest first.
pub record Queued (h : Links) (q : Queue) (xs : List Ptr) : Type 0 where
  pub linked : Linked h q xs
  pub once : (a : Ptr) → count a xs ≤ 1
  pub present : count null xs ≡ 0

-- The store after `item` has been put behind `p`.
abbrev pub behind : Links → Ptr → Ptr → Links
behind h p item = record h { next = update (update h.next item null) p item }

module _ (h : Links) (p item : Ptr) where
  pub Follows-behind :
      (a : Ptr) (bs : List Ptr)
      → p ≡ last_or a bs
      → Follows h a bs
      → ((c : Ptr) → count c (a ∷ bs) ≤ 1)
      → count item (a ∷ bs) ≡ 0
      → Follows (behind h p item) a (bs ++ item ∷ [])
  Follows-behind a [] e s once new = ground (arith, once item)
  Follows-behind a (b ∷ bs) e s once new =
      let there = count-last_or b bs in
      let before : a ≢ last_or b bs = ground (arith, once (last_or b bs)) in
      let apart : a ≢ p = λ q. before (q ∙ e) in
      (ground arith, Follows-behind b bs e s.1 (λ c. omega (arith, once c)) (omega arith))

last_or-append : (a b : Ptr) (xs : List Ptr) → last_or a (xs ++ b ∷ []) ≡ b
last_or-append a b [] = refl
last_or-append a b (x ∷ xs) = last_or-append x b xs

module _ {h : Links} where
  -- SingleLinkAppend puts a node that is not NULL and not in the queue behind the others, and
  -- writes no link but those of the node and of the queue.
  pub append-Queued :
      (q : Queue) (xs : List Ptr) (item : Ptr)
      → Queued h q xs
      → item ≢ null
      → count item xs ≡ 0
      → Returns
          (λ q' g. Queued g q' (xs ++ item ∷ []) × SameOutside (item ∷ xs) h g)
          (single_link_append q item h)
  unfolding single_link_append
  append-Queued q [] item v ne new = (
    record { root = item; tail = item },
    record h { next = update h.next item null },
    ground arith,
    (
      record {
        linked = ground arith;
        once = once-append item [] v.once new;
        present = present-append item ne [] refl;
      },
      λ a out. ground arith,
    ),
  )
  append-Queued q (x ∷ xs) item v ne new =
      let e : q.tail ≡ last_or x xs = v.linked.1 in
      let there : 1 ≤ count q.tail (x ∷ xs) =
        omega (arith, count-last_or x xs, ap (λ (c : Ptr). count c (x ∷ xs)) e) in
      let some_tail = ne-null q.tail (x ∷ xs) v.present there in
      (
        record q { tail = item },
        behind h q.tail item,
        ground arith,
        (
          record {
            linked = (
              v.linked.0,
              rw last_or-append,
              Follows-behind h q.tail item x xs e v.linked.2 v.once new,
            );
            once = once-append item (x ∷ xs) v.once new;
            present = present-append item ne (x ∷ xs) v.present;
          },
          λ a out.
              let apart : a ≢ q.tail = λ k. omega (arith, ap (λ (c : Ptr). count c (x ∷ xs)) k) in
              ground arith,
        ),
      )

  -- SingleLinkNext returns the oldest node of the queue, or NULL if it is empty, leaves the queue
  -- of the others, and writes no link.
  pub next-Queued :
      (q : Queue) (xs : List Ptr)
      → Queued h q xs
      → Returns
          (λ (p, q') g. (p ≡ head_or_null xs) × (g ≡ h) × Queued h q' (tail xs))
          (single_link_next q h)
  unfolding single_link_next
  next-Queued q [] v = ((null, q), h, ground arith, (refl, refl, v))
  next-Queued q (x ∷ []) v = (
    (q.root, record { root = null; tail = null }),
    h,
    ground arith,
    (v.linked.0, refl, record { linked = (refl, refl); once = λ a. omega arith; present = refl }),
  )
  next-Queued q (x ∷ y ∷ ys) v = (
    (q.root, record { root = y; tail = q.tail }),
    h,
    ground arith,
    (
      v.linked.0,
      refl,
      record {
        linked = (refl, v.linked.1, v.linked.2.1);
        once = λ a. omega (arith, v.once a);
        present = omega (arith, v.present);
      },
    ),
  )
