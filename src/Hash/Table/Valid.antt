-- ===== src/Hash/Table/Valid.antt =====
-- A table and the lists of nodes in its buckets.
use spiderframe.Base.{
  ℕ, zero, suc, ◌+◌, ◌-◌, ◌*◌, ◌/◌, ◌^◌, ◌≤◌, ◌<◌, ◌≡◌, refl, ◌≢◌, ap, ◌∙◌, true, some, List, [],
  arith, length, get_elem?, replicate, length-replicate,
}
use native.Mathlib.Nat.{div-eq_of_lt, add-mul-div_right}
use spiderframe.Base.Bits.{pow-add, pow_pos}
use spiderframe.Link.{Ptr, Links}
use spiderframe.Link.Cycle.{Ring, count}
use spiderframe.Hash.Table.{Que, Table, empty_que, bits_to_num, hash_module_init}

-- Bucket `i` is a circle of the nodes `f i`, counts them, and shares none with another bucket.
pub record IsValid (h : Links) (t : Table) (f : ℕ → List Ptr) : Type 0 where
  pub bits_low : 4 ≤ t.mask_bits
  pub bits_high : t.mask_bits ≤ 24
  pub width : length t.items ≡ 2 ^ t.mask_bits
  pub rings :
      (i : ℕ) (q : Que)
      → get_elem? t.items i ≡ some q
      → Ring h q.root (f i) × (q.count ≡ length (f i))
  pub apart : (i j : ℕ) (a : Ptr) → i ≢ j → 1 ≤ count a (f i) → count a (f j) ≡ 0

get_elem?-replicate :
    {A : Type 0} (n i : ℕ) (a : A) (b : A) → get_elem? (replicate n a) i ≡ some b → b ≡ a
get_elem?-replicate zero i a b h = ground arith
get_elem?-replicate (suc n) zero a b h = ground arith
get_elem?-replicate (suc n) (suc i) a b h = get_elem?-replicate n i a b h

bits_to_num-pow : (bits : ℕ) → bits ≤ 32 → bits_to_num bits ≡ 2 ^ bits
unfolding bits_to_num
bits_to_num-pow bits le =
    let a : ℕ = 2 ^ bits - 1 in
    let b : ℕ = 2 ^ (32 - bits) in
    let whole : 2 ^ 32 ≡ 2 ^ bits * b =
      ap (λ (n : ℕ). 2 ^ n) (let e : 32 ≡ bits + (32 - bits) = omega arith in e)
      ∙ pow-add bits (32 - bits) in
    let one_more : 2 ^ bits ≡ a + 1 = omega (arith, pow_pos bits) in
    let product = ap (λ (t : ℕ). t * b) one_more in
    let e : 0xffff_ffff ≡ b - 1 + a * b = omega (arith, pow_pos (32 - bits)) in
    let quotient : 0xffff_ffff / b ≡ a =
      ap (λ (t : ℕ). t / b) e
      ∙ add-mul-div_right (b - 1) a (pow_pos (32 - bits))
      ∙ rw (div-eq_of_lt (let s : b - 1 < b = omega (arith, pow_pos (32 - bits)) in s))
          (omega arith) in
    rw quotient (omega arith)

-- For 4 to 24 bits, if the pool has the memory, HashModuleInit returns a valid table in which
-- every bucket is empty.
pub hash_module_init-IsValid :
    (h : Links) (bits : ℕ)
    → 4 ≤ bits
    → bits ≤ 24
    → (t : Table) × (hash_module_init true bits ≡ some t) × IsValid h t (λ _. [])
unfolding hash_module_init
hash_module_init-IsValid h bits low high = (
  record { mask_bits = bits; items = replicate (bits_to_num bits) empty_que },
  ground arith,
  record {
    bits_low = low;
    bits_high = high;
    width = length-replicate (bits_to_num bits) empty_que ∙ bits_to_num-pow bits (omega arith);
    rings = λ i q h.
        let e = get_elem?-replicate (bits_to_num bits) i empty_que q h in
        (
          record {
            head = ap (λ (q : Que). q.root) e;
            closed = tt;
            once = λ a. omega arith;
            present = refl;
          },
          ap (λ (q : Que). q.count) e,
        );
    apart = λ i j a ne there. refl;
  },
)
