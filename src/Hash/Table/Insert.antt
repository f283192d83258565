-- ===== src/Hash/Table/Insert.antt =====
-- HashModuleInsert on a valid table.
use spiderframe.Base.{
  ℕ, ◌+◌, ◌≡◌, refl, ◌≢◌, ◌∙◌, some, List, [], ◌∷◌, ◌++◌, arith, length-append, set,
}
use spiderframe.Link.{Ptr, null, Links}
use spiderframe.Link.Append.{Returns, append-Ring}
use spiderframe.Link.Cycle.{count, count-append, SameOutside}
use spiderframe.Hash.Key.{key_to_item}
use spiderframe.Hash.Table.{Que, Table, hash_module_insert}
use spiderframe.Hash.Table.Frame.{home, with_item-Home, replace, set-IsValid}
use spiderframe.Hash.Table.Valid.{IsValid}

-- What an insertion of `node` under `key` leaves behind.
pub record Inserted (h : Links) (t : Table) (f : ℕ → List Ptr) (key : ℕ) (node : Ptr) (t' : Table)
    (g : Links) : Type 0 where
  pub bucket : ℕ
  pub index : key_to_item t.mask_bits key ≡ some bucket
  pub bits : t'.mask_bits ≡ t.mask_bits
  pub valid : IsValid g t' (replace f bucket (f bucket ++ node ∷ []))
  pub same : SameOutside (node ∷ f bucket) h g

-- On a valid table, and for a node that is not NULL and that no bucket holds, HashModuleInsert
-- runs without a fault and appends the node to the bucket of its key; the table stays valid with
-- as many mask bits, the other buckets hold what they held, and no link is written but those of
-- the node and of that bucket.
pub hash_module_insert-Inserted :
    (h : Links) (t : Table) (f : ℕ → List Ptr) (key : ℕ) (node : Ptr)
    → IsValid h t f
    → node ≢ null
    → ((i : ℕ) → count node (f i) ≡ 0)
    → Returns (Inserted h t f key node) (hash_module_insert t key node h)
unfolding hash_module_insert
hash_module_insert-Inserted h t f key node v ne new =
    let (i, que, m) = home h t f key v in
    let (ring, counted) = v.rings i que m.found in
    let (root, g, run, (ring', same)) = append-Ring {h = h} node ne que.root (f i) ring (new i) in
    let que' : Que = record { root = root; count = que.count + 1 } in
    (
      record t { items = set t.items i que' },
      g,
      with_item-Home t key i que _ h m ∙ rw run,
      record {
        bucket = i;
        index = m.index;
        bits = refl;
        valid =
            set-IsValid h g t f i que' (f i ++ node ∷ []) (node ∷ f i) v ring'
              (omega (arith, length-append {0} (f i) (node ∷ []))) same
              (λ j a ne there. ground (arith, v.apart i j a, v.apart j i a, new j))
              (λ a there. omega (arith, count-append a (f i) (node ∷ [])));
        same = same;
      },
    )
