-- ===== src/Hash/Table/Find.antt =====
-- An insertion and the searches after it.
use spiderframe.Base.{
  ℕ, ◌≡◌, refl, ap, ◌∙◌, Bool, true, Option, none, some, List, [], ◌∷◌, ◌++◌, arith, Bool-cases,
  inl, inr,
}
use spiderframe.Link.{Ptr, Links, ok}
use spiderframe.Link.Walk.{find}
use spiderframe.Hash.Table.{Table, HashData, matches, hash_module_search}
use spiderframe.Hash.Table.Frame.{replace}
use spiderframe.Hash.Table.Insert.{Inserted}
use spiderframe.Hash.Table.Search.{hash_module_search-find}

-- Behind a list, a node that passes the test is found if none before it passes.
pub find_last :
    (test : Ptr → Bool) (xs : List Ptr) (node : Ptr)
    → test node ≡ true
    → (p : Ptr) × (find test (xs ++ node ∷ []) ≡ some p)
      × (test p ≡ true)
      × (find test xs ≡ none → p ≡ node)
unfolding find
find_last test [] node h = (node, rw h, h, λ e. refl)
find_last test (x ∷ xs) node h = elim (Bool-cases (test x)) [
  | inl e ↦ (x, rw e, e, λ n. ground arith)
  | inr e ↦
      let (p, run, pass, first) = find_last test xs node h in
      (p, rw e run, pass, λ n. first (rw e at n))
]

-- What a search under the key of the insertion finds.
pub record Finds {B : Type 0} (nodes : Ptr → HashData B) (cmp : B → Bool) (data_len : ℕ) (t : Table)
    (key : ℕ) (node : Ptr) (old : List Ptr) (g : Links) : Type 0 where
  pub found : Ptr
  pub run : hash_module_search nodes t key cmp data_len g ≡ ok (some found) g
  pub passes : matches nodes cmp data_len found ≡ true
  pub first : find (matches nodes cmp data_len) old ≡ none → found ≡ node

-- If an insertion under a key has succeeded, a search under the key with a length and a comparison
-- that the new node passes finds a node that passes them: the new one, if no node of the bucket
-- passed them before.
pub insert-Finds :
    {B : Type 0} (nodes : Ptr → HashData B) (cmp : B → Bool) (data_len : ℕ) (h : Links) (t : Table)
    (f : ℕ → List Ptr) (key : ℕ) (node : Ptr) (t' : Table) (g : Links)
    (m : Inserted h t f key node t' g)
    → matches nodes cmp data_len node ≡ true
    → Finds nodes cmp data_len t' key node (f m.bucket) g
insert-Finds nodes cmp data_len h t f key node t' g m pass =
    let b = m.bucket in
    let test = matches nodes cmp data_len in
    let (p, found, pass', first) = find_last test (f b) node pass in
    let (i, index, run) =
      hash_module_search-find nodes cmp data_len g t' (replace f b (f b ++ node ∷ [])) key
        m.valid in
    let here : i ≡ b = ground (arith, m.bits, m.index) in
    let bucket : replace f b (f b ++ node ∷ []) i ≡ f b ++ node ∷ [] = rw here (ground arith) in
    record {
      found = p;
      run = run ∙ ap (λ (o : Option Ptr). ok o g) (ap (find test) bucket ∙ found);
      passes = pass';
      first = first;
    }

pub find-passes :
    (test : Ptr → Bool) (xs : List Ptr) (p : Ptr) → find test xs ≡ some p → test p ≡ true
unfolding find
find-passes test [] p h = ground arith
find-passes test (x ∷ xs) p h = elim (Bool-cases (test x)) [
  | inl e ↦ ground arith
  | inr e ↦ find-passes test xs p (rw e at h)
]
