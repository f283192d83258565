-- ===== src/Hash/Table/Remove.antt =====
-- HashModuleRemove on a valid table.
use spiderframe.Base.{
  ℕ, ◌+◌, ◌-◌, ◌≤◌, ◌≡◌, refl, sym, ap, ◌∙◌, Bool, Option, none, some, List, [], ◌∷◌, arith, length,
  set, ◌==◌, Bool-cases, inl, inr, ==_iff, fun_ext, Option-cases,
}
use spiderframe.Link.{Ptr, null, Links, and_then}
use spiderframe.Link.Append.{Returns}
use spiderframe.Link.Cycle.{count, SameOutside}
use spiderframe.Link.Remove.{erase, count-erase-le, remove-Ring}
use spiderframe.Link.Walk.{find, find-count}
use spiderframe.Hash.Key.{key_to_item}
use spiderframe.Hash.Table.{
  Que, Table, HashData, matches, search_que, remove_in, remove_found, hash_module_remove,
}
use spiderframe.Hash.Table.Frame.{Home, home, with_item-Home, replace, set-IsValid}
use spiderframe.Hash.Table.Search.{search_que-find}
use spiderframe.Hash.Table.Valid.{IsValid}

length-erase : (p : Ptr) (xs : List Ptr) → 1 ≤ count p xs → length (erase p xs) + 1 ≡ length xs
unfolding erase
length-erase p [] h = absurd (omega arith)
length-erase p (x ∷ xs) h = ground (arith, length-erase p xs)

abbrev erase_found : Option Ptr → List Ptr → List Ptr
erase_found none xs = xs
erase_found (some p) xs = erase p xs

-- What a removal leaves behind: the bucket without the node that was found, if one was.
pub record Removed (h : Links) (t : Table) (f : ℕ → List Ptr) (test : Ptr → Bool) (key : ℕ)
    (r : Option Ptr × Table) (g : Links) : Type 0 where
  pub bucket : ℕ
  pub index : key_to_item t.mask_bits key ≡ some bucket
  pub result : r.0 ≡ find test (f bucket)
  pub valid : IsValid g r.1 (replace f bucket (erase_found r.0 (f bucket)))
  pub same : SameOutside (f bucket) h g

replace_self : (f : ℕ → List Ptr) (i : ℕ) → replace f i (f i) ≡ f
replace_self f i =
    fun_ext λ j. elim (Bool-cases (j == i)) [
      | inl e ↦ rw e (ap f (sym ((==_iff j i).0 e)))
      | inr e ↦ rw e
    ]

module _ {B : Type 0} (nodes : Ptr → HashData B) (cmp : B → Bool) (data_len : ℕ) (h : Links)
    (t : Table) where
  -- The test of the root before the search makes no difference.
  remove_in-search :
      (i : ℕ) (que : Que)
      → remove_in nodes t cmp data_len i que h
        ≡ and_then (search_que nodes que cmp data_len h) (remove_found nodes t i que)
  unfolding search_que
  remove_in-search i que = elim (Bool-cases (que.root == null)) [ inl e ↦ rw e | inr e ↦ rw e ]

  module _ (f : ℕ → List Ptr) (key : ℕ) (v : IsValid h t f) where
    remove_none :
        (i : ℕ) (que : Que)
        → Home t key i que
        → find (matches nodes cmp data_len) (f i) ≡ none
        → Returns
            (Removed h t f (matches nodes cmp data_len) key)
            (remove_in nodes t cmp data_len i que h)
    remove_none i que m e =
        let (ring, counted) = v.rings i que m.found in
        let found = search_que-find nodes cmp data_len h que (f i) ring counted in
        (
          (none, t),
          h,
          remove_in-search i que ∙ rw (found, e),
          record {
            bucket = i;
            index = m.index;
            result = sym e;
            valid = rw (replace_self f i) v;
            same = λ a out. (refl, refl);
          },
        )

    remove_some :
        (i : ℕ) (que : Que) (p : Ptr)
        → Home t key i que
        → find (matches nodes cmp data_len) (f i) ≡ some p
        → Returns
            (Removed h t f (matches nodes cmp data_len) key)
            (remove_in nodes t cmp data_len i que h)
    remove_some i que p m e =
        let (ring, counted) = v.rings i que m.found in
        let found = search_que-find nodes cmp data_len h que (f i) ring counted in
        let there = (find-count (matches nodes cmp data_len) (f i) p e).0 in
        let (root, g, run, (ring', same)) = remove-Ring ring p there in
        let que' : Que = record { root = root; count = que.count - 1 } in
        (
          (some p, record t { items = set t.items i que' }),
          g,
          remove_in-search i que ∙ rw (found, e, run),
          record {
            bucket = i;
            index = m.index;
            result = sym e;
            valid =
                set-IsValid h g t f i que' (erase p (f i)) (f i) v ring'
                  (omega (arith, length-erase p (f i) there)) same
                  (λ j a ne there. ground (arith, v.apart j i a))
                  (λ a there. omega (arith, count-erase-le a p (f i)));
            same = same;
          },
        )

    -- On a valid table, HashModuleRemove with a comparison runs without a fault, returns the first
    -- node of the key's bucket that has the length and passes the comparison, if there is one, and
    -- takes it out of the bucket; the table stays valid, the other buckets hold what they held,
    -- and no link is written but those of that bucket.
    pub hash_module_remove-Removed :
        Returns
          (Removed h t f (matches nodes cmp data_len) key)
          (hash_module_remove nodes t key (some cmp) data_len h)
    unfolding hash_module_remove
    hash_module_remove-Removed =
        let (i, que, m) = home h t f key v in
        rw (with_item-Home t key i que (remove_in nodes t cmp data_len) h m)
          (elim (Option-cases (find (matches nodes cmp data_len) (f i))) [
            | inl e ↦ remove_none i que m e
            | inr (p, e) ↦ remove_some i que p m e
          ])
