-- ===== src/Hash/Key.antt =====
-- `KeyToItem`: the bucket of a 32-bit key, by folding the groups of its bits together.
use mathlib.Core.Option
use native.Mathlib.Nat.{lt_of_le_of_lt, div-mul-le_self, mod-lt, mul_assoc, div-lt_iff_lt-mul}
use spiderframe.Base.{
  ℕ, zero, suc, ◌+◌, ◌-◌, ◌*◌, ◌/◌, ◌%◌, ◌^◌, ◌≤◌, ◌<◌, ◌≡◌, refl, sym, ap, ap₂, subst, ◌∙◌, Option,
  none, some, arith, bit_and, bit_xor, ◌==◌, if◌then◌else◌, Bool-cases, inl, inr, ==_iff,
}
use spiderframe.Base.Bits.{bit_xor-lt, bit_and-lt, pow-add, scale_mod, pow_pos}

-- `while (key) { key1 ^= Mask & key; key <<= Shift; }`; `none` means that the fuel ran out.
unfoldable pub fold_loop : (fuel shift mask key1 key : ℕ) → Option ℕ
fold_loop zero shift mask key1 key = none
fold_loop (suc k) shift mask key1 key =
    let rest =
      fold_loop k shift mask (bit_xor key1 (bit_and mask key)) (key * 2 ^ shift % 2 ^ 32) in
    if key == 0 then some key1 else rest

-- Every round shifts a bit out of a 32-bit word at least.
abbrev pub fold_fuel : ℕ
fold_fuel = 33

-- The multiplication, the mask, the two halves of the key, the loop, and the index.
unfoldable pub key_to_item : (shift key : ℕ) → Option ℕ
key_to_item shift key0 =
    let key : ℕ = key0 * 7591 % 2 ^ 32 in
    let mask : ℕ = 0xffff_ffff * 2 ^ (32 - shift) % 2 ^ 32 in
    let key1 : ℕ = key * 2 ^ (32 - shift) % 2 ^ 32 in
    let high : ℕ = key / 2 ^ shift * 2 ^ shift in
    Option.map (λ k. k / 2 ^ (32 - shift)) (fold_loop fold_fuel shift mask key1 high)

-- The word that is left is a multiple of 2 ^ j, and j grows.
shifted :
    (j q s : ℕ)
    → j + 1 ≤ 32
    → 1 ≤ s
    → q * 2 ^ j * 2 ^ s % 2 ^ 32 ≡ q * 2 ^ (s - 1) % 2 ^ (31 - j) * 2 ^ (j + 1)
shifted j q s h pos =
    let whole : 2 ^ 32 ≡ 2 ^ (31 - j) * 2 ^ (j + 1) =
      ap (λ (n : ℕ). 2 ^ n) (let e : 32 ≡ 31 - j + (j + 1) = omega arith in e)
      ∙ pow-add (31 - j) (j + 1) in
    let split : 2 ^ j * 2 ^ s ≡ 2 ^ (s - 1) * 2 ^ (j + 1) =
      sym (pow-add j s)
      ∙ ap (λ (n : ℕ). 2 ^ n) (let e : j + s ≡ s - 1 + (j + 1) = omega arith in e)
      ∙ pow-add (s - 1) (j + 1) in
    let e : q * 2 ^ j * 2 ^ s ≡ q * 2 ^ (s - 1) * 2 ^ (j + 1) =
      mul_assoc q (2 ^ j) (2 ^ s)
      ∙ ap (λ (t : ℕ). q * t) split
      ∙ sym (mul_assoc q (2 ^ (s - 1)) (2 ^ (j + 1))) in
    ap₂ ◌%◌ e whole
    ∙ scale_mod (q * 2 ^ (s - 1)) (2 ^ (31 - j)) (2 ^ (j + 1)) (pow_pos (31 - j)) (pow_pos (j + 1))

-- The state of the loop after `j` rounds at least: `key` is a multiple of 2 ^ j.
record Folding (j key1 key : ℕ) : Type 0 where
  rounds : j ≤ 32
  word1 : key1 < 2 ^ 32
  word : key < 2 ^ 32
  factor : ℕ
  multiple : key ≡ factor * 2 ^ j

-- With no bit left the loop is done.
done : (key1 key : ℕ) → Folding 32 key1 key → key ≡ 0
done key1 key f = omega (arith, f.word, f.multiple)

round_Folding :
    (j s mask key1 key : ℕ)
    → Folding j key1 key
    → j < 32
    → 1 ≤ s
    → Folding (j + 1) (bit_xor key1 (bit_and mask key)) (key * 2 ^ s % 2 ^ 32)
round_Folding j s mask key1 key f more pos = record {
  rounds = omega arith;
  word1 = bit_xor-lt 32 key1 (bit_and mask key) f.word1 (bit_and-lt 32 mask key f.word);
  word = mod-lt (key * 2 ^ s) (omega arith);
  factor = f.factor * 2 ^ (s - 1) % 2 ^ (31 - j);
  multiple = rw f.multiple (shifted j f.factor s (omega arith) pos);
}

fold_loop-total :
    (k j s mask key1 key : ℕ)
    → Folding j key1 key
    → 32 < k + j
    → 1 ≤ s
    → (r : ℕ) × (fold_loop k s mask key1 key ≡ some r) × (r < 2 ^ 32)
unfolding fold_loop
fold_loop-total zero j s mask key1 key f fuel pos = absurd (omega (arith, f.rounds))
fold_loop-total (suc k) j s mask key1 key f fuel pos = elim (Bool-cases (key == 0)) [
  | inl e ↦ (key1, rw e, f.word1)
  | inr e ↦ elim (Bool-cases (j == 32)) [
    | inl last ↦
        absurd
          (ground (arith, done key1 key (subst (λ i. Folding i key1 key) ((==_iff j 32).0 last) f)))
    | inr more ↦ rw e (
        fold_loop-total k (j + 1) s mask _ _
          (round_Folding j s mask key1 key f (ground (arith, f.rounds)) pos) (omega arith) pos)
  ]
]

-- With 1 to 32 mask bits, the loop of KeyToItem ends for every key within its fuel, and the index
-- lies in a table of 2 ^ shift buckets.
pub key_to_item-lt :
    (shift key : ℕ)
    → 1 ≤ shift
    → shift ≤ 32
    → (i : ℕ) × (key_to_item shift key ≡ some i) × (i < 2 ^ shift)
unfolding key_to_item
key_to_item-lt shift key0 pos le =
    let key : ℕ = key0 * 7591 % 2 ^ 32 in
    let mask : ℕ = 0xffff_ffff * 2 ^ (32 - shift) % 2 ^ 32 in
    let key1 : ℕ = key * 2 ^ (32 - shift) % 2 ^ 32 in
    let high : ℕ = key / 2 ^ shift * 2 ^ shift in
    let start : Folding 0 key1 high = record {
      rounds = omega arith;
      word1 = mod-lt (key * 2 ^ (32 - shift)) (omega arith);
      word = lt_of_le_of_lt (div-mul-le_self key (2 ^ shift)) (mod-lt (key0 * 7591) (omega arith));
      factor = high;
      multiple = omega arith;
    } in
    let (r, run, small) =
      fold_loop-total fold_fuel 0 shift mask key1 high start (omega arith) pos in
    let whole : 2 ^ 32 ≡ 2 ^ shift * 2 ^ (32 - shift) =
      ap (λ (n : ℕ). 2 ^ n) (let e : 32 ≡ shift + (32 - shift) = omega arith in e)
      ∙ pow-add shift (32 - shift) in
    (
      r / 2 ^ (32 - shift),
      ap (Option.map (λ k. k / 2 ^ (32 - shift))) run,
      (div-lt_iff_lt-mul (pow_pos (32 - shift))).1 (subst (λ n. r < n) whole small),
    )

key_to_item_1 : key_to_item 8 1 ≡ some 0xba
unfolding key_to_item fold_loop
key_to_item_1 = refl
