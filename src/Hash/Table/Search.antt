-- ===== src/Hash/Table/Search.antt =====
-- HashModuleSearch on a valid table.
use spiderframe.Base.{ℕ, ◌≡◌, ◌∙◌, Bool, false, some, List, [], ◌∷◌, arith, length, ◌==◌}
use spiderframe.Link.{Ptr, null, Links, ok, fault}
use spiderframe.Link.Cycle.{Ring}
use spiderframe.Link.Walk.{find, walk_lem}
use spiderframe.Hash.Key.{key_to_item}
use spiderframe.Hash.Table.{Que, Table, HashData, matches, search_que, hash_module_search}
use spiderframe.Hash.Table.Frame.{home, with_item-Home}
use spiderframe.Hash.Table.Valid.{IsValid}

module _ {B : Type 0} (nodes : Ptr → HashData B) (cmp : B → Bool) (data_len : ℕ) (h : Links) where
  -- A bucket is searched in its order, within the fuel of its count.
  pub search_que-find :
      (que : Que) (xs : List Ptr)
      → Ring h que.root xs
      → que.count ≡ length xs
      → search_que nodes que cmp data_len h ≡ ok (find (matches nodes cmp data_len) xs) h
  unfolding search_que find
  search_que-find que [] r counted = rw r.head
  search_que-find que (x ∷ xs) r counted =
      let test = matches nodes cmp data_len in
      let some_root : (que.root == null) ≡ false = ground (arith, r.present) in
      rw some_root (walk_lem (λ _. fault) test h que.root que.count x xs r (omega arith))

  -- On a valid table, HashModuleSearch runs without a fault, changes no link, and finds the first
  -- node of the key's bucket, in the order of insertion, that has the length and passes the
  -- comparison, or none.
  pub hash_module_search-find :
      (t : Table) (f : ℕ → List Ptr) (key : ℕ)
      → IsValid h t f
      → (i : ℕ) × (key_to_item t.mask_bits key ≡ some i)
        × (hash_module_search nodes t key cmp data_len h
            ≡ ok (find (matches nodes cmp data_len) (f i)) h)
  unfolding hash_module_search
  hash_module_search-find t f key v =
      let (i, que, m) = home h t f key v in
      let (ring, counted) = v.rings i que m.found in
      (i, m.index, with_item-Home t key i que _ h m ∙ search_que-find que (f i) ring counted)
