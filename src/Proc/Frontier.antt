-- ===== src/Proc/Frontier.antt =====
-- Every URL is remembered, and written to the file of URLs once.
use spiderframe.Base.{
  ℕ, ◌≡◌, refl, ◌≢◌, ap, ◌∙◌, true, Option, none, some, List, [], ◌∷◌, ◌++◌, ◌⊎◌, inl, inr, arith,
  Text, Option-cases,
}
use spiderframe.Link.{Ptr, null, Links, Run, ok, and_then}
use spiderframe.Link.Append.{Returns}
use spiderframe.Link.Cycle.{count}
use spiderframe.Link.Walk.{find}
use spiderframe.Hash.Crc.{sf_crc}
use spiderframe.Hash.Table.{alloc_hash_data, matches}
use spiderframe.Hash.Table.Find.{insert-Finds}
use spiderframe.Hash.Table.Frame.{replace}
use spiderframe.Hash.Table.Insert.{hash_module_insert-Inserted}
use spiderframe.Hash.Table.Search.{hash_module_search-find}
use spiderframe.Hash.Table.Valid.{IsValid}
use spiderframe.Proc.{
  UrlStore, compare_string, search_url, with_key, insert_missing, sf_proc_insert_url,
}

-- The outcome of `sf_proc_insert_url`: the table is valid, at most the line of the URL is new in
-- the file, and to insert the URL again, at any level, does nothing.
pub record Remembered (st : UrlStore) (url : Text) (level : ℕ) (st' : UrlStore) (g : Links)
    : Type 0 where
  pub contents : ℕ → List Ptr
  pub valid : IsValid g st'.table contents
  pub file : (st'.file ≡ st.file) ⊎ (st'.file ≡ st.file ++ (level, url) ∷ [])
  pub again : (level2 : ℕ) (new : Option Ptr) → sf_proc_insert_url st' url level2 new g ≡ ok st' g

pub known_again :
    (st : UrlStore) (url : Text) (p : Ptr) (g : Links)
    → search_url st url g ≡ ok (some p) g
    → (level : ℕ) (new : Option Ptr) → sf_proc_insert_url st url level new g ≡ ok st g
unfolding sf_proc_insert_url
known_again st url p g run level new = rw run

pub own_key :
    (st : UrlStore) (node : Ptr) (url : Text)
    → matches (with_key st node url) (compare_string url) 8 node ≡ true
unfolding alloc_hash_data compare_string
own_key st node url = ground arith

-- On a valid table, with memory for a node that is not NULL and that no bucket holds,
-- sf_proc_insert_url runs without a fault and leaves a valid table; the file of URLs gets at most
-- the one line of the URL, and to insert the URL again, at any level, does nothing.
pub sf_proc_insert_url-Remembered :
    (h : Links) (st : UrlStore) (f : ℕ → List Ptr) (url : Text) (level : ℕ) (node : Ptr)
    → IsValid h st.table f
    → node ≢ null
    → ((i : ℕ) → count node (f i) ≡ 0)
    → Returns (Remembered st url level) (sf_proc_insert_url st url level (some node) h)
unfolding sf_proc_insert_url search_url
sf_proc_insert_url-Remembered h st f url level node v ne new =
    let key = sf_crc url in
    let test = matches st.nodes (compare_string url) 8 in
    let (i, index, run) =
      hash_module_search-find st.nodes (compare_string url) 8 h st.table f key v in
    elim (Option-cases (find test (f i))) [
      | inr (p, found) ↦
          let known : search_url st url h ≡ ok (some p) h =
            run ∙ ap (λ (o : Option Ptr). ok o h) found in
          (
            st,
            h,
            ap (λ (r : Run (Option Ptr)). and_then r (insert_missing st url level (some node)))
                known,
            record {
              contents = f;
              valid = v;
              file = inl refl;
              again = known_again st url p h known;
            },
          )
      | inl missing ↦
          let unknown : search_url st url h ≡ ok none h =
            run ∙ ap (λ (o : Option Ptr). ok o h) missing in
          let (t', g, inserted, m) = hash_module_insert-Inserted h st.table f key node v ne new in
          let st' : UrlStore = record {
            table = t';
            nodes = with_key st node url;
            file = st.file ++ (level, url) ∷ [];
          } in
          let finds =
            insert-Finds (with_key st node url) (compare_string url) 8 h st.table f key node t' g m
              (own_key st node url) in
          (
            st',
            g,
            ap (λ (r : Run (Option Ptr)). and_then r (insert_missing st url level (some node)))
                  unknown
                ∙ rw inserted,
            record {
              contents = replace f m.bucket (f m.bucket ++ node ∷ []);
              valid = m.valid;
              file = inr refl;
              again = known_again st' url finds.found g finds.run;
            },
          )
    ]
