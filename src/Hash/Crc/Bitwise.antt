-- ===== src/Hash/Crc/Bitwise.antt =====
-- The table-driven CRC against the bit-by-bit one: the reflected polynomial 0xedb88320.
use spiderframe.Base.{
  ℕ, zero, suc, ◌*◌, ◌/◌, ◌%◌, ◌^◌, ◌<◌, ◌≡◌, refl, ap, bytes, ◌⊎◌, ◌∙◌, sym, Bool, true, [], ◌∷◌,
  arith, Text, IsBytes, bit_and, bit_xor, ◌==◌, if◌then◌else◌, get_or, ==_iff, all_below_lem, inl,
  inr,
}
use native.Mathlib.Nat.{pow-succ'}
use spiderframe.Base.Lists.{all_below}
use spiderframe.Base.Bits.{bit_and_mask}
use spiderframe.Base.Xor.{
  xor_comm, xor-zero, xor_assoc, xor-half, xor-low, xor_interchange, xor-shift, split_byte,
}
use spiderframe.Hash.Crc.{crc32_table256, crc_round, crc_loop, sf_crc}

abbrev poly : ℕ
poly = 0xedb8_8320

-- One division step: shift out the lowest bit, and subtract the polynomial if it was set.
crc_bit : ℕ → ℕ
crc_bit v = if v % 2 == 1 then bit_xor (v / 2) poly else v / 2

crc_bits : ℕ → ℕ → ℕ
unfolding crc_bit
crc_bits zero v = v
crc_bits (suc k) v = crc_bits k (crc_bit v)

bitwise_loop : ℕ → Text → ℕ
unfolding crc_bits
bitwise_loop crc [] = crc
bitwise_loop crc (c ∷ p) = bitwise_loop (crc_bits 8 (bit_xor crc c)) p

-- The reference: every bit of every byte on its own.
pub bitwise_crc : Text → ℕ
unfolding bitwise_loop
bitwise_crc p = bit_xor (bitwise_loop 0xffff_ffff p) 0xffff_ffff

crc_bit_even : (v : ℕ) → v % 2 ≡ 0 → crc_bit v ≡ v / 2
unfolding crc_bit
crc_bit_even v e = rw e

crc_bit_odd : (v : ℕ) → v % 2 ≡ 1 → crc_bit v ≡ bit_xor (v / 2) poly
unfolding crc_bit
crc_bit_odd v e = rw e

parity : (v : ℕ) → (v % 2 ≡ 0) ⊎ (v % 2 ≡ 1)
parity v = grind arith

-- A step is linear over `^`.
crc_bit-xor : (a b : ℕ) → crc_bit (bit_xor a b) ≡ bit_xor (crc_bit a) (crc_bit b)
crc_bit-xor a b = elim (parity a) [
  | inl ea ↦ elim (parity b) [
    | inl eb ↦
        crc_bit_even (bit_xor a b) (rw xor-low (omega arith))
        ∙ rw (crc_bit_even a ea, crc_bit_even b eb) (xor-half a b)
    | inr eb ↦
        crc_bit_odd (bit_xor a b) (rw xor-low (omega arith))
        ∙ rw (crc_bit_even a ea, crc_bit_odd b eb, xor-half a b) (xor_assoc (a / 2) (b / 2) poly)
  ]
  | inr ea ↦ elim (parity b) [
    | inl eb ↦
        crc_bit_odd (bit_xor a b) (rw xor-low (omega arith))
        ∙ rw
            (
              crc_bit_odd a ea,
              crc_bit_even b eb,
              xor-half a b,
              xor_assoc (a / 2) poly (b / 2),
              xor_comm poly (b / 2),
            )
            (xor_assoc (a / 2) (b / 2) poly)
    | inr eb ↦
        crc_bit_even (bit_xor a b) (rw xor-low (omega arith))
        ∙ rw
            (
              crc_bit_odd a ea,
              crc_bit_odd b eb,
              xor-half a b,
              xor_interchange (a / 2) poly (b / 2) poly,
            )
            (sym (xor-zero (bit_xor (a / 2) (b / 2))))
  ]
]

crc_bits-xor : (k a b : ℕ) → crc_bits k (bit_xor a b) ≡ bit_xor (crc_bits k a) (crc_bits k b)
unfolding crc_bits
crc_bits-xor zero a b = refl
crc_bits-xor (suc k) a b = rw (crc_bit-xor a b) (crc_bits-xor k (crc_bit a) (crc_bit b))

crc_bit-double : (m : ℕ) → crc_bit (m * 2) ≡ m
unfolding crc_bit
crc_bit-double m = ground arith

crc_bits-shift : (k q : ℕ) → crc_bits k (q * 2 ^ k) ≡ q
unfolding crc_bits
crc_bits-shift zero q = omega arith
crc_bits-shift (suc k) q =
    let e : q * 2 ^ suc k ≡ q * 2 ^ k * 2 = omega (arith, ap (λ (t : ℕ). q * t) (pow-succ' 2 k)) in
    rw (e, crc_bit-double (q * 2 ^ k)) (crc_bits-shift k q)

entry_checked : ℕ → Bool
entry_checked i = get_or crc32_table256 i 0 == crc_bits 8 i

table_checked : all_below entry_checked 256 ≡ true
unfolding all_below entry_checked crc32_table256 crc_bits
table_checked = refl

-- Each entry of the table is eight division steps from its index.
table-crc_bits : (i : ℕ) → i < 256 → get_or crc32_table256 i 0 ≡ crc_bits 8 i
unfolding entry_checked
table-crc_bits i h = (==_iff _ _).0 (all_below_lem entry_checked 256 i h table_checked)

crc_round-bits : (crc c : ℕ) → c < 256 → crc_round crc c ≡ crc_bits 8 (bit_xor crc c)
unfolding crc_round
crc_round-bits crc c h =
    let v = bit_xor crc c in
    let shifted : v / 256 ≡ crc / 256 =
      xor-shift 8 crc c
      ∙ ap (bit_xor (crc / 256)) (let z : c / 256 ≡ 0 = omega arith in z)
      ∙ xor-zero (crc / 256) in
    let low : bit_and v 0xff ≡ v % 256 = bit_and_mask 8 v in
    rw (low, table-crc_bits (v % 256) (omega arith), ← shifted)
      (sym (
        ap (crc_bits 8) (sym (split_byte v))
        ∙ crc_bits-xor 8 (v % 256) (v / 256 * 256)
        ∙ ap (bit_xor (crc_bits 8 (v % 256))) (crc_bits-shift 8 (v / 256))))

crc_loop-bitwise : (crc : ℕ) (p : Text) → IsBytes p → crc_loop crc p ≡ bitwise_loop crc p
unfolding crc_loop bitwise_loop
crc_loop-bitwise crc [] h = refl
crc_loop-bitwise crc (c ∷ p) h =
    rw (crc_round-bits crc c h.0) (crc_loop-bitwise (crc_bits 8 (bit_xor crc c)) p h.1)

-- On every string of bytes the table-driven loop computes the bit-by-bit CRC.
pub sf_crc-bitwise_crc : (p : Text) → IsBytes p → sf_crc p ≡ bitwise_crc p
unfolding sf_crc bitwise_crc
sf_crc-bitwise_crc p h = rw (crc_loop-bitwise 0xffff_ffff p h)

check_value : sf_crc (bytes "123456789") ≡ 0xcbf4_3926
unfolding sf_crc crc_loop crc_round crc32_table256
check_value = refl
