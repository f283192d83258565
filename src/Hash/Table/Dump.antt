-- ===== src/Hash/Table/Dump.antt =====
-- HashModuleDump: the statistics that it prints.
use spiderframe.Base.{
  ℕ, zero, suc, ◌+◌, ◌≤◌, ◌<◌, ◌≡◌, refl, ◌∙◌, ap, List, [], ◌∷◌, arith, length, length-set, get_or,
  set, replicate, ltb, leb, if◌then◌else◌,
}
use spiderframe.Hash.Table.{Que, Table}

-- What the loop over the buckets has gathered.
pub record Stats : Type 0 where
  pub all : ℕ
  pub min_count : ℕ
  pub max_count : ℕ
  pub histogram : List ℕ

-- The slot of the histogram for a count: the last one is for 10 and more.
abbrev pub slot : ℕ → ℕ
slot count = if leb 10 count then 10 else count

unfoldable pub dump_item : Stats → ℕ → Stats
dump_item s count = record {
  all = s.all + count;
  min_count = if ltb count s.min_count then count else s.min_count;
  max_count = if ltb s.max_count count then count else s.max_count;
  histogram = set s.histogram (slot count) (get_or s.histogram (slot count) 0 + 1);
}

unfoldable pub dump_loop : Stats → List Que → Stats
unfolding dump_item
dump_loop s [] = s
dump_loop s (que ∷ ques) = dump_loop (dump_item s que.count) ques

unfoldable pub hash_module_dump : Table → Stats
unfolding dump_loop
hash_module_dump t =
    dump_loop (record { all = 0; min_count = 999999; max_count = 0; histogram = replicate 11 0 })
      t.items

pub total : List ℕ → ℕ
total [] = 0
total (n ∷ ns) = n + total ns

pub counts : List Que → List ℕ
counts [] = []
counts (q ∷ qs) = q.count ∷ counts qs

total-set :
    (ns : List ℕ) (i : ℕ) → i < length ns → total (set ns i (get_or ns i 0 + 1)) ≡ total ns + 1
unfolding total
total-set [] i h = absurd (omega arith)
total-set (n ∷ ns) zero h = omega arith
total-set (n ∷ ns) (suc i) h = omega (arith, total-set ns i)

abbrev pub All : (ℕ → Type 0) → List ℕ → Type 0
All P [] = Unit
All P (n ∷ ns) = P n × All P ns

-- The sums, the bounds and the histogram are those of the counts that the loop has seen.
record Gathered (s r : Stats) (ns : List ℕ) : Type 0 where
  sum : r.all ≡ s.all + total ns
  filed : total r.histogram ≡ total s.histogram + length ns
  slots : length r.histogram ≡ 11
  lower : r.min_count ≤ s.min_count
  upper : s.max_count ≤ r.max_count
  within : All (λ n. (r.min_count ≤ n) × (n ≤ r.max_count)) ns

dump_loop-Gathered :
    (s : Stats) (qs : List Que) → length s.histogram ≡ 11 → Gathered s (dump_loop s qs) (counts qs)
unfolding dump_loop total counts
dump_loop-Gathered s [] h = record {
  sum = omega arith;
  filed = omega arith;
  slots = h;
  lower = omega arith;
  upper = omega arith;
  within = tt;
}
dump_loop-Gathered s (q ∷ qs) h =
    let s' = dump_item s q.count in
    let top : slot q.count < length s.histogram = ground arith in
    let ih = dump_loop-Gathered s' qs (length-set s.histogram (slot q.count) _ ∙ h) in
    let one_more = total-set s.histogram (slot q.count) top in
    record {
      sum = omega (arith, ih.sum);
      filed = omega (arith, ih.filed);
      slots = ih.slots;
      lower = ground (arith, ih.lower);
      upper = ground (arith, ih.upper);
      within = ((ground (arith, ih.lower), ground (arith, ih.upper)), ih.within);
    }

length-counts : (qs : List Que) → length (counts qs) ≡ length qs
unfolding counts
length-counts [] = refl
length-counts (q ∷ qs) = ap suc (length-counts qs)

-- HashModuleDump prints the number of nodes in all buckets, files every bucket in one of eleven
-- slots, and prints a least and a greatest count that bound the count of every bucket.
pub hash_module_dump-All :
    (t : Table)
    → ((hash_module_dump t).all ≡ total (counts t.items))
      × (total (hash_module_dump t).histogram ≡ length t.items)
      × (length (hash_module_dump t).histogram ≡ 11)
      × All
          (λ n. ((hash_module_dump t).min_count ≤ n) × (n ≤ (hash_module_dump t).max_count))
          (counts t.items)
unfolding hash_module_dump total
hash_module_dump-All t =
    let g =
      dump_loop-Gathered
        (record { all = 0; min_count = 999999; max_count = 0; histogram = replicate 11 0 }) t.items
        refl in
    (omega (arith, g.sum), omega (arith, g.filed, length-counts t.items), g.slots, g.within)
