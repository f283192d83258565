-- ===== src/Confset/Stored.antt =====
-- What a configuration file leaves in the table.
use spiderframe.Base.{
  ℕ, ◌≡◌, ◌≢◌, ap, ◌∙◌, true, Option, none, some, List, [], ◌∷◌, ◌++◌, arith, Text, text_eq→eq,
  text_eq_refl, Option-cases, inl, inr,
}
use spiderframe.Link.{Ptr, null, Links, Run, ok, and_then}
use spiderframe.Link.Append.{Returns}
use spiderframe.Link.Cycle.{count}
use spiderframe.Link.Walk.{find}
use spiderframe.Hash.Crc.{sf_crc}
use spiderframe.Hash.Table.{Table, HashData, matches}
use spiderframe.Hash.Table.Find.{insert-Finds, find-passes}
use spiderframe.Hash.Table.Frame.{replace}
use spiderframe.Hash.Table.Insert.{hash_module_insert-Inserted}
use spiderframe.Hash.Table.Search.{hash_module_search-find}
use spiderframe.Hash.Table.Valid.{IsValid}
use spiderframe.Confset.{
  HashConf, hash_conf_len, compare_conf_fn, sf_confset_search, insert_missing, sf_confset_insert,
  sf_get_checkpoint,
}

module _ (nodes : Ptr → HashData HashConf) where
  -- A name has a node `p` of that name, which every later search finds: its line is the checkpoint,
  -- and another record of the name is not inserted.
  pub record Stored (name : Text) (t : Table) (g : Links) : Type 0 where
    pub contents : ℕ → List Ptr
    pub valid : IsValid g t contents
    pub node : Ptr
    pub named : (nodes node).body.conf_fn ≡ name
    pub search : sf_confset_search nodes t name g ≡ ok (some node) g
    pub line : sf_get_checkpoint nodes t name g ≡ ok (nodes node).body.line g
    pub again : (q : Ptr) → (nodes q).body.conf_fn ≡ name → sf_confset_insert nodes t q g ≡ ok t g

  matches-name :
      (name : Text) (p : Ptr)
      → matches nodes (compare_conf_fn name) hash_conf_len p ≡ true
      → (nodes p).body.conf_fn ≡ name
  matches-name name p h = ground (arith, text_eq→eq (nodes p).body.conf_fn name)

  name-matches :
      (p : Ptr)
      → (nodes p).data_len ≡ hash_conf_len
      → matches nodes (compare_conf_fn (nodes p).body.conf_fn) hash_conf_len p ≡ true
  name-matches p h = ground (arith, text_eq_refl (nodes p).body.conf_fn)

  line_found :
      (name : Text) (t : Table) (p : Ptr) (g : Links)
      → sf_confset_search nodes t name g ≡ ok (some p) g
      → sf_get_checkpoint nodes t name g ≡ ok (nodes p).body.line g
  unfolding sf_get_checkpoint
  line_found name t p g run = rw run

  insert_found :
      (name : Text) (t : Table) (p : Ptr) (g : Links)
      → sf_confset_search nodes t name g ≡ ok (some p) g
      → (q : Ptr) → (nodes q).body.conf_fn ≡ name
      → sf_confset_insert nodes t q g ≡ ok t g
  unfolding sf_confset_insert
  insert_found name t p g run q e =
      ap (λ (n : Text). and_then (sf_confset_search nodes t n g) (insert_missing nodes t q)) e
      ∙ rw run

  stored :
      (name : Text) (t : Table) (f : ℕ → List Ptr) (p : Ptr) (g : Links)
      → IsValid g t f
      → (nodes p).body.conf_fn ≡ name
      → sf_confset_search nodes t name g ≡ ok (some p) g
      → Stored name t g
  stored name t f p g v e run = record {
    contents = f;
    valid = v;
    node = p;
    named = e;
    search = run;
    line = line_found name t p g run;
    again = insert_found name t p g run;
  }

  -- On a valid table, with a record of the right size that is not NULL and that no bucket holds,
  -- sf_confset_insert runs without a fault and leaves a valid table with one node for the record's
  -- name: sf_confset_search finds it, sf_get_checkpoint returns its line, and to insert a record
  -- of the name again does nothing.
  pub sf_confset_insert-Stored :
      (h : Links) (t : Table) (f : ℕ → List Ptr) (p : Ptr)
      → IsValid h t f
      → p ≢ null
      → ((i : ℕ) → count p (f i) ≡ 0)
      → (nodes p).data_len ≡ hash_conf_len
      → Returns (Stored (nodes p).body.conf_fn) (sf_confset_insert nodes t p h)
  unfolding sf_confset_insert sf_confset_search
  sf_confset_insert-Stored h t f p v ne new size =
      let name = (nodes p).body.conf_fn in
      let cmp = compare_conf_fn name in
      let test = matches nodes cmp hash_conf_len in
      let (i, index, run) = hash_module_search-find nodes cmp hash_conf_len h t f (sf_crc name) v in
      elim (Option-cases (find test (f i))) [
        | inr (q, found) ↦
            let known : sf_confset_search nodes t name h ≡ ok (some q) h =
              run ∙ ap (λ (o : Option Ptr). ok o h) found in
            (
              t,
              h,
              ap (λ (r : Run (Option Ptr)). and_then r (insert_missing nodes t p)) known,
              stored name t f q h v (matches-name name q (find-passes test (f i) q found)) known,
            )
        | inl missing ↦
            let unknown : sf_confset_search nodes t name h ≡ ok none h =
              run ∙ ap (λ (o : Option Ptr). ok o h) missing in
            let (t', g, inserted, m) = hash_module_insert-Inserted h t f (sf_crc name) p v ne new in
            let finds =
              insert-Finds nodes cmp hash_conf_len h t f (sf_crc name) p t' g m
                (name-matches p size) in
            (
              t',
              g,
              ap (λ (r : Run (Option Ptr)). and_then r (insert_missing nodes t p)) unknown
                  ∙ inserted,
              stored name t' (replace f m.bucket (f m.bucket ++ p ∷ [])) finds.found g m.valid
                  (matches-name name finds.found finds.passes) finds.run,
            )
      ]
