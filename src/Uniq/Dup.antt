-- ===== src/Uniq/Dup.antt =====
-- A string that was inserted is a duplicate from then on.
use spiderframe.Base.{
  ℕ, ◌≡◌, ◌≢◌, true, some, List, [], ◌∷◌, ◌++◌, arith, Text, text_eq→eq, text_eq_refl,
}
use spiderframe.Link.{Ptr, null, Links, ok}
use spiderframe.Link.Append.{Returns}
use spiderframe.Link.Cycle.{count}
use spiderframe.Hash.Crc.{sf_crc}
use spiderframe.Hash.Table.{Table, HashData, matches}
use spiderframe.Hash.Table.Find.{insert-Finds}
use spiderframe.Hash.Table.Frame.{replace}
use spiderframe.Hash.Table.Insert.{hash_module_insert-Inserted}
use spiderframe.Hash.Table.Valid.{IsValid}
use spiderframe.Uniq.{compare_string, uniq_len, sf_isdup, sf_uniq_insert}

module _ (nodes : Ptr → HashData Text) where
  -- The table is valid, and a string is a duplicate: a search for it finds a node that carries it.
  pub record IsDup (name : Text) (t : Table) (g : Links) : Type 0 where
    pub contents : ℕ → List Ptr
    pub valid : IsValid g t contents
    pub node : Ptr
    pub carries : (nodes node).body ≡ name
    pub found : sf_isdup nodes t name g ≡ ok (some node) g

  -- On a valid table, with a record of the right size that is not NULL and that no bucket holds,
  -- sf_uniq_insert runs without a fault and leaves a valid table in which sf_isdup finds a node
  -- with the record's string.
  pub sf_uniq_insert-IsDup :
      (h : Links) (t : Table) (f : ℕ → List Ptr) (p : Ptr)
      → IsValid h t f
      → p ≢ null
      → ((i : ℕ) → count p (f i) ≡ 0)
      → (nodes p).data_len ≡ uniq_len
      → Returns (IsDup (nodes p).body) (sf_uniq_insert nodes t p h)
  unfolding sf_uniq_insert sf_isdup
  sf_uniq_insert-IsDup h t f p v ne new size =
      let name = (nodes p).body in
      let (t', g, inserted, m) = hash_module_insert-Inserted h t f (sf_crc name) p v ne new in
      let own : matches nodes (compare_string name) uniq_len p ≡ true =
        ground (arith, text_eq_refl name) in
      let finds =
        insert-Finds nodes (compare_string name) uniq_len h t f (sf_crc name) p t' g m own in
      (
        t',
        g,
        inserted,
        record {
          contents = replace f m.bucket (f m.bucket ++ p ∷ []);
          valid = m.valid;
          node = finds.found;
          carries = ground (arith, finds.passes, text_eq→eq (nodes finds.found).body name);
          found = finds.run;
        },
      )
