-- ===== src/Proc/Load.antt =====
-- The URLs of the file are known after the start.
use spiderframe.Base.{
  ℕ, ◌≤◌, ◌≡◌, refl, sym, ◌≢◌, ap, ◌∙◌, Bool, true, false, Option, none, some, List, [], ◌∷◌, ◌++◌,
  append-nil, ==_iff, arith, Text, ◌==◌, Option-cases, Bool-cases, inl, inr,
}
use spiderframe.Link.{Ptr, null, Links, Run, ok, and_then}
use spiderframe.Link.Append.{Returns}
use spiderframe.Link.Cycle.{count, count-append}
use spiderframe.Link.Walk.{find}
use spiderframe.Hash.Crc.{sf_crc}
use spiderframe.Hash.Key.{key_to_item}
use spiderframe.Hash.Table.{matches}
use spiderframe.Hash.Table.Find.{find_last}
use spiderframe.Hash.Table.Frame.{replace}
use spiderframe.Hash.Table.Insert.{hash_module_insert-Inserted}
use spiderframe.Hash.Table.Search.{hash_module_search-find}
use spiderframe.Hash.Table.Valid.{IsValid}
use spiderframe.Proc.{
  UrlStore, compare_string, search_url, with_key, load_missing, load_url, load_urls,
  sf_proc_insert_url,
}
use spiderframe.Proc.Frontier.{known_again, own_key}

abbrev test_of : UrlStore → Text → Ptr → Bool
test_of st url = matches st.nodes (compare_string url) 8

-- The bucket of a URL has a node with its key.
pub record Holds (st : UrlStore) (f : ℕ → List Ptr) (url : Text) : Type 0 where
  pub bucket : ℕ
  pub index : key_to_item st.table.mask_bits (sf_crc url) ≡ some bucket
  pub node : Ptr
  pub found : find (test_of st url) (f bucket) ≡ some node

Holds-search :
    (st : UrlStore) (f : ℕ → List Ptr) (url : Text) (g : Links)
    → IsValid g st.table f
    → (m : Holds st f url) → search_url st url g ≡ ok (some m.node) g
unfolding search_url
Holds-search st f url g v m =
    let (i, index, run) =
      hash_module_search-find st.nodes (compare_string url) 8 g st.table f (sf_crc url) v in
    let same : i ≡ m.bucket = ground (arith, m.index) in
    run
    ∙ ap (λ (o : Option Ptr). ok o g) (ap (λ (j : ℕ). find (test_of st url) (f j)) same ∙ m.found)

-- A search that has found something finds the same in a longer list, by a test that agrees.
find-longer :
    (test test' : Ptr → Bool) (xs ys : List Ptr) (p : Ptr)
    → ((a : Ptr) → 1 ≤ count a xs → test a ≡ test' a)
    → find test xs ≡ some p
    → find test' (xs ++ ys) ≡ some p
unfolding find
find-longer test test' [] ys p same h = ground arith
find-longer test test' (x ∷ xs) ys p same h =
    let here : test x ≡ test' x = same x (ground arith) in
    elim (Bool-cases (test x)) [
      | inl e ↦ let e' : test' x ≡ true = sym here ∙ e in rw e' (rw e at h)
      | inr e ↦
          let e' : test' x ≡ false = sym here ∙ e in
          rw e' (find-longer test test' xs ys p (λ a m. same a (ground arith)) (rw e at h))
    ]

find-replace :
    (test test' : Ptr → Bool) (f : ℕ → List Ptr) (b : ℕ) (node : Ptr) (j : ℕ) (p : Ptr)
    → ((a : Ptr) → 1 ≤ count a (f j) → test a ≡ test' a)
    → find test (f j) ≡ some p
    → find test' (replace f b (f b ++ node ∷ []) j) ≡ some p
find-replace test test' f b node j p same h = elim (Bool-cases (j == b)) [
  | inl e ↦
      let here : j ≡ b = (==_iff j b).0 e in
      let longer = find-longer test test' (f j) (node ∷ []) p same h in
      rw e (ap (λ (k : ℕ). find test' (f k ++ node ∷ [])) (sym here) ∙ longer)
  | inr e ↦
      rw e (ap (find test') (sym (append-nil (f j))) ∙ find-longer test test' (f j) [] p same h)
]

replace_here : (f : ℕ → List Ptr) (b : ℕ) (xs : List Ptr) → replace f b xs b ≡ xs
replace_here f b xs = ground arith

-- What one line of the file leaves behind.
record Loaded (st : UrlStore) (f : ℕ → List Ptr) (url : Text) (node : Ptr) (st' : UrlStore)
    (g : Links) : Type 0 where
  contents : ℕ → List Ptr
  valid : IsValid g st'.table contents
  held : Holds st' contents url
  kept : (u : Text) → Holds st f u → Holds st' contents u
  added : (a : Ptr) → a ≢ node → ((i : ℕ) → count a (f i) ≡ 0) → (i : ℕ) → count a (contents i) ≡ 0

other_key :
    (st : UrlStore) (node : Ptr) (url u : Text) (a : Ptr)
    → a ≢ node
    → test_of st u a ≡ matches (with_key st node url) (compare_string u) 8 a
other_key st node url u a ne = ground arith

new_absurd :
    (f : ℕ → List Ptr) (node a : Ptr) (i : ℕ)
    → a ≡ node
    → count node (f i) ≡ 0
    → 1 ≤ count a (f i)
    → ⊥
new_absurd f node a i e out there = omega (arith, ap (λ (b : Ptr). count b (f i)) e)

load_url-Loaded :
    (h : Links) (st : UrlStore) (f : ℕ → List Ptr) (url : Text) (node : Ptr)
    → IsValid h st.table f
    → node ≢ null
    → ((i : ℕ) → count node (f i) ≡ 0)
    → Returns (Loaded st f url node) (load_url st url (some node) h)
unfolding load_url search_url
load_url-Loaded h st f url node v ne new =
    let (i, index, run) =
      hash_module_search-find st.nodes (compare_string url) 8 h st.table f (sf_crc url) v in
    elim (Option-cases (find (test_of st url) (f i))) [
      | inr (p, found) ↦
          let known : search_url st url h ≡ ok (some p) h =
            run ∙ ap (λ (o : Option Ptr). ok o h) found in
          (
            st,
            h,
            ap (λ (r : Run (Option Ptr)). and_then r (load_missing st url (some node))) known,
            record {
              contents = f;
              valid = v;
              held = record { bucket = i; index = index; node = p; found = found };
              kept = λ u m. m;
              added = λ a other out. out;
            },
          )
      | inl missing ↦
          let unknown : search_url st url h ≡ ok none h =
            run ∙ ap (λ (o : Option Ptr). ok o h) missing in
          let (t', g, inserted, m) =
            hash_module_insert-Inserted h st.table f (sf_crc url) node v ne new in
          let st' : UrlStore = record st { table = t'; nodes = with_key st node url } in
          let f' = replace f m.bucket (f m.bucket ++ node ∷ []) in
          let (p, found, pass, first) =
            find_last (test_of st' url) (f m.bucket) node (own_key st node url) in
          (
            st',
            g,
            ap (λ (r : Run (Option Ptr)). and_then r (load_missing st url (some node))) unknown
                ∙ rw inserted,
            record {
              contents = f';
              valid = m.valid;
              held = record {
                bucket = m.bucket;
                index = ap (λ (b : ℕ). key_to_item b (sf_crc url)) m.bits ∙ m.index;
                node = p;
                found =
                    ap (find (test_of st' url)) (replace_here f m.bucket (f m.bucket ++ node ∷ []))
                    ∙ found;
              };
              kept = λ u k. record {
                bucket = k.bucket;
                index = ap (λ (b : ℕ). key_to_item b (sf_crc u)) m.bits ∙ k.index;
                node = k.node;
                found =
                    find-replace (test_of st u) (test_of st' u) f m.bucket node k.bucket k.node
                      (λ a there.
                        other_key st node url u a
                          (λ e. new_absurd f node a k.bucket e (new k.bucket) there))
                      k.found;
              };
              added = λ a other out j.
                  ground (arith, out j, out m.bucket, count-append a (f m.bucket) (node ∷ []));
            },
          )
    ]

-- The memory that the pool returns for each line.
abbrev pub nodes_of : List (Text × Ptr) → List Ptr
nodes_of [] = []
nodes_of ((url, node) ∷ lines) = node ∷ nodes_of lines

abbrev pub with_memory : List (Text × Ptr) → List (Text × Option Ptr)
with_memory [] = []
with_memory ((url, node) ∷ lines) = (url, some node) ∷ with_memory lines

-- Something holds of the URL of each line.
abbrev pub EachUrl : (Text → Type 0) → List (Text × Ptr) → Type 0
EachUrl P [] = Unit
EachUrl P ((url, node) ∷ lines) = P url × EachUrl P lines

-- The nodes for the lines are different from each other, from NULL and from those in the table.
pub record Supplied (f : ℕ → List Ptr) (lines : List (Text × Ptr)) : Type 0 where
  pub once : (a : Ptr) → count a (nodes_of lines) ≤ 1
  pub present : count null (nodes_of lines) ≡ 0
  pub new : (a : Ptr) → 1 ≤ count a (nodes_of lines) → (i : ℕ) → count a (f i) ≡ 0

record Filled (f : ℕ → List Ptr) (st : UrlStore) (lines : List (Text × Ptr)) (st' : UrlStore)
    (g : Links) : Type 0 where
  contents : ℕ → List Ptr
  valid : IsValid g st'.table contents
  kept : (u : Text) → Holds st f u → Holds st' contents u
  held : EachUrl (Holds st' contents) lines

load_urls-Filled :
    (lines : List (Text × Ptr)) (h : Links) (st : UrlStore) (f : ℕ → List Ptr)
    → IsValid h st.table f
    → Supplied f lines
    → Returns (Filled f st lines) (load_urls (with_memory lines) st h)
unfolding load_urls
load_urls-Filled [] h st f v s =
    (st, h, refl, record { contents = f; valid = v; kept = λ u m. m; held = tt })
load_urls-Filled ((url, node) ∷ lines) h st f v s =
    let (st1, g1, run1, one) =
      load_url-Loaded h st f url node v (ground (arith, s.present)) (s.new node (ground arith)) in
    let s1 : Supplied one.contents lines = record {
      once = λ a. omega (arith, s.once a, count-append a (node ∷ []) (nodes_of lines));
      present = ground (arith, s.present);
      new = λ a there. one.added a (ground (arith, s.once a)) (s.new a (ground arith));
    } in
    let (st2, g2, run2, rest) = load_urls-Filled lines g1 st1 one.contents one.valid s1 in
    (
      st2,
      g2,
      ap (λ (r : Run UrlStore). and_then r (load_urls (with_memory lines))) run1 ∙ run2,
      record {
        contents = rest.contents;
        valid = rest.valid;
        kept = λ u m. rest.kept u (one.kept u m);
        held = (rest.kept url one.held, rest.held);
      },
    )

-- To insert the URL, at any level, does nothing.
pub IsKnown : UrlStore → Links → Text → Type 0
IsKnown st g url = (level : ℕ) (new : Option Ptr) → sf_proc_insert_url st url level new g ≡ ok st g

all-IsKnown :
    (lines : List (Text × Ptr)) (st : UrlStore) (f : ℕ → List Ptr) (g : Links)
    → IsValid g st.table f
    → EachUrl (Holds st f) lines
    → EachUrl (IsKnown st g) lines
unfolding IsKnown
all-IsKnown [] st f g v held = tt
all-IsKnown ((url, node) ∷ lines) st f g v (m, held) =
    (known_again st url m.node g (Holds-search st f url g v m), all-IsKnown lines st f g v held)

-- If the pool returns a new node for every line of the file of URLs, the loop over the lines runs
-- without a fault from any valid table, the table is valid behind it, and every URL of the file is
-- known: sf_proc_insert_url does not write it to the file again.
pub load_urls-IsKnown :
    (lines : List (Text × Ptr)) (h : Links) (st : UrlStore) (f : ℕ → List Ptr)
    → IsValid h st.table f
    → Supplied f lines
    → Returns
        (λ st' g. (f' : ℕ → List Ptr) × IsValid g st'.table f' × EachUrl (IsKnown st' g) lines)
        (load_urls (with_memory lines) st h)
load_urls-IsKnown lines h st f v s =
    let (st', g, run, m) = load_urls-Filled lines h st f v s in
    (st', g, run, (m.contents, m.valid, all-IsKnown lines st' m.contents g m.valid m.held))
