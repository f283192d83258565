-- ===== src/Hash/Bkdr.antt =====
-- `BKDRHash`: the 64-bit key under which a URL is remembered.
use spiderframe.Base.{
  ℕ, ◌+◌, ◌-◌, ◌*◌, ◌%◌, ◌^◌, ◌≡◌, refl, ◌∙◌, [], ◌∷◌, arith, Text, bytes, bit_and, ltb,
  if◌then◌else◌,
}
use spiderframe.Base.Bits.{bit_and_mask}

abbrev pub seed : ℕ
seed = 13131313

-- `*str`, a signed `char`, converted to `unsigned long long`.
abbrev pub sign_extend : ℕ → ℕ
sign_extend c = if ltb c 128 then c else 2 ^ 64 - 256 + c

unfoldable pub bkdr_loop : ℕ → Text → ℕ
bkdr_loop hash [] = hash
bkdr_loop hash (c ∷ str) = bkdr_loop ((hash * seed + sign_extend c) % 2 ^ 64) str

unfoldable pub bkdr_hash : Text → ℕ
unfolding bkdr_loop
bkdr_hash str = bit_and (bkdr_loop 0 str) 0x7fff_ffff_ffff_ffff

-- The same polynomial over the numbers without bound.
pub bkdr_poly : ℕ → Text → ℕ
bkdr_poly acc [] = acc
bkdr_poly acc (c ∷ str) = bkdr_poly (acc * seed + sign_extend c) str

bkdr_loop-poly : (a : ℕ) (str : Text) → bkdr_loop (a % 2 ^ 64) str ≡ bkdr_poly a str % 2 ^ 64
unfolding bkdr_loop bkdr_poly
bkdr_loop-poly a [] = refl
bkdr_loop-poly a (c ∷ str) =
    let x : ℕ = sign_extend c in
    let e : (a % 2 ^ 64 * seed + x) % 2 ^ 64 ≡ (a * seed + x) % 2 ^ 64 = omega arith in
    rw e (bkdr_loop-poly (a * seed + x) str)

-- The wrapping and the final mask together are one remainder: the hash is the polynomial in the
-- seed modulo 2 ^ 63.
pub bkdr_hash-bkdr_poly : (str : Text) → bkdr_hash str ≡ bkdr_poly 0 str % 2 ^ 63
unfolding bkdr_hash
bkdr_hash-bkdr_poly str = bit_and_mask 63 (bkdr_loop 0 str) ∙ omega (arith, bkdr_loop-poly 0 str)

bkdr_ab : bkdr_hash (bytes "ab") ≡ 97 * 13131313 + 98
unfolding bkdr_hash
bkdr_ab = refl
