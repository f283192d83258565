-- ===== src/Hash/Table/Frame.antt =====
-- One bucket at a time: a write to the nodes of one circle leaves the other buckets as they are.
use spiderframe.Base.{
  ℕ, zero, suc, ◌≤◌, ◌<◌, ◌≡◌, refl, ◌≢◌, ap, subst, ◌∙◌, some, List, [], ◌∷◌, ◌++◌, arith, length,
  get_elem?, set, length-set, if◌then◌else◌, ◌==◌, Bool-cases, inl, inr,
}
use spiderframe.Link.{Ptr, Links, Run}
use spiderframe.Link.Cycle.{Chain, Ring, count, count-append, SameOutside}
use spiderframe.Hash.Key.{key_to_item, key_to_item-lt}
use spiderframe.Hash.Table.{Que, Table, at_que, in_bucket, with_item}
use spiderframe.Hash.Table.Valid.{IsValid}

Chain-frame :
    (h g : Links) (a : Ptr) (bs : List Ptr)
    → Chain h a bs
    → ((c : Ptr) → 1 ≤ count c (a ∷ bs) → (g.next c ≡ h.next c) × (g.prev c ≡ h.prev c))
    → Chain g a bs
Chain-frame h g a [] s same = tt
Chain-frame h g a (b ∷ bs) s same = (
  (same a (ground arith)).0 ∙ s.0,
  (same b (ground arith)).1 ∙ s.1,
  Chain-frame h g b bs s.2 (λ c m. same c (omega arith)),
)

-- A circle survives any change outside its nodes.
pub Ring-frame :
    (h g : Links) (root : Ptr) (xs : List Ptr)
    → Ring h root xs
    → ((c : Ptr) → 1 ≤ count c xs → (g.next c ≡ h.next c) × (g.prev c ≡ h.prev c))
    → Ring g root xs
Ring-frame h g root [] r same = record {
  head = r.head;
  closed = tt;
  once = r.once;
  present = r.present;
}
Ring-frame h g root (x ∷ xs) r same = record {
  head = r.head;
  closed =
      Chain-frame h g x (xs ++ x ∷ []) r.closed
        (λ c m. same c (ground (arith, count-append c xs (x ∷ []))));
  once = r.once;
  present = r.present;
}

get_elem?-lt :
    {A : Type 0} (xs : List A) (i : ℕ) → i < length xs → (a : A) × (get_elem? xs i ≡ some a)
get_elem?-lt [] i lt = absurd (omega arith)
get_elem?-lt (x ∷ xs) zero lt = (x, refl)
get_elem?-lt (x ∷ xs) (suc i) lt = get_elem?-lt xs i (omega arith)

get_elem?-set :
    {A : Type 0} (xs : List A) (i j : ℕ) (v w : A)
    → get_elem? (set xs i v) j ≡ some w
    → (if j == i then v ≡ w else get_elem? xs j ≡ some w)
get_elem?-set [] i j v w h = ground arith
get_elem?-set (x ∷ xs) zero zero v w h = ground arith
get_elem?-set (x ∷ xs) zero (suc j) v w h = ground arith
get_elem?-set (x ∷ xs) (suc i) zero v w h = ground arith
get_elem?-set (x ∷ xs) (suc i) (suc j) v w h = ground (arith, get_elem?-set xs i j v w)

-- The home bucket of a key in a valid table.
pub record Home (t : Table) (key i : ℕ) (que : Que) : Type 0 where
  pub index : key_to_item t.mask_bits key ≡ some i
  pub found : get_elem? t.items i ≡ some que

pub home :
    (h : Links) (t : Table) (f : ℕ → List Ptr) (key : ℕ)
    → IsValid h t f
    → (i : ℕ) × (que : Que) × Home t key i que
home h t f key v =
    let (i, run, small) =
      key_to_item-lt t.mask_bits key (omega (arith, v.bits_low)) (omega (arith, v.bits_high)) in
    let (que, e) = get_elem?-lt t.items i (omega (arith, v.width)) in
    (i, que, record { index = run; found = e })

pub with_item-Home :
    {A : Type 0} (t : Table) (key i : ℕ) (que : Que) (body : ℕ → Que → Links → Run A) (h : Links)
    → Home t key i que
    → with_item t body key h ≡ body i que h
with_item-Home t key i que body h m =
    ap (λ o. in_bucket t body o h) m.index ∙ ap (λ o. at_que t body i o h) m.found

-- `f` with the nodes of one bucket given anew.
abbrev pub replace : (ℕ → List Ptr) → ℕ → List Ptr → ℕ → List Ptr
replace f i xs j = if j == i then xs else f j

-- The table after a write to bucket `i`, whose nodes are now `ys`: all that the write may touch
-- are its old nodes and one that no bucket held.
pub set-IsValid :
    (h g : Links) (t : Table) (f : ℕ → List Ptr) (i : ℕ) (que : Que) (ys zs : List Ptr)
    → IsValid h t f
    → Ring g que.root ys
    → que.count ≡ length ys
    → SameOutside zs h g
    → ((j : ℕ) (a : Ptr) → i ≢ j → 1 ≤ count a (f j) → count a zs ≡ 0)
    → ((a : Ptr) → 1 ≤ count a ys → 1 ≤ count a zs)
    → IsValid g (record t { items = set t.items i que }) (replace f i ys)
set-IsValid h g t f i que ys zs v ring counted same free kept = record {
  bits_low = v.bits_low;
  bits_high = v.bits_high;
  width = length-set t.items i que ∙ v.width;
  rings = λ j q e.
      let found = get_elem?-set t.items i j que q e in
      elim (Bool-cases (j == i)) [
        | inl here ↦
            let e' : que ≡ q = rw here at found in
            rw here
              (subst (λ (x : Que). Ring g x.root ys × (x.count ≡ length ys)) e' (ring, counted))
        | inr other ↦
            let e' : get_elem? t.items j ≡ some q = rw other at found in
            let (old, n) = v.rings j q e' in
            rw other
              (Ring-frame h g q.root (f j) old (λ c m. same c (free j c (ground arith) m)), n)
      ];
  apart = λ j k a ne there. ground (arith, v.apart j k a, free j a, free k a, kept a);
}
