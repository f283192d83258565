-- ===== src/Base/Xor.antt =====
-- `^` on native numbers is a commutative group of exponent 2.
use spiderframe.Base.{
  ℕ, zero, suc, ◌+◌, ◌*◌, ◌/◌, ◌%◌, ◌^◌, ◌≤◌, ◌<◌, ◌≡◌, ap, ap₂, sym, refl, ◌∙◌, arith, bit_xor,
}
use native.Mathlib.Nat.{pow-succ', div-one, div-div-eq-div-mul}
use spiderframe.Base.Bits.{bit_xor_step}

xor_comm_within : (n a b : ℕ) → a ≤ n → b ≤ n → bit_xor a b ≡ bit_xor b a
xor_comm_within zero zero zero p q = refl
xor_comm_within zero zero (suc b) p q = absurd (omega arith)
xor_comm_within zero (suc a) b p q = absurd (omega arith)
xor_comm_within (suc n) a b p q = omega (
  arith,
  bit_xor_step a b,
  bit_xor_step b a,
  xor_comm_within n (a / 2) (b / 2) (omega arith) (omega arith),
)

pub xor_comm : (a b : ℕ) → bit_xor a b ≡ bit_xor b a
xor_comm a b = xor_comm_within (a + b) a b (omega arith) (omega arith)

xor-zero_within : (n a : ℕ) → a ≤ n → bit_xor a 0 ≡ a
xor-zero_within n zero p = refl
xor-zero_within zero (suc a) p = absurd (omega arith)
xor-zero_within (suc n) (suc a) p =
    omega (arith, bit_xor_step (suc a) 0, xor-zero_within n (suc a / 2) (omega arith))

pub xor-zero : (a : ℕ) → bit_xor a 0 ≡ a
xor-zero a = xor-zero_within a a (omega arith)

xor_self_within : (n a : ℕ) → a ≤ n → bit_xor a a ≡ 0
xor_self_within n zero p = refl
xor_self_within zero (suc a) p = absurd (omega arith)
xor_self_within (suc n) (suc a) p =
    omega (arith, bit_xor_step (suc a) (suc a), xor_self_within n (suc a / 2) (omega arith))

pub xor_self : (a : ℕ) → bit_xor a a ≡ 0
xor_self a = xor_self_within a a (omega arith)

pub xor-half : (a b : ℕ) → bit_xor a b / 2 ≡ bit_xor (a / 2) (b / 2)
xor-half a b = omega (arith, bit_xor_step a b)

pub xor-low : (a b : ℕ) → bit_xor a b % 2 ≡ (a % 2 + b % 2) % 2
xor-low a b = omega (arith, bit_xor_step a b)

xor_assoc_within :
    (n a b c : ℕ) → a ≤ n → b ≤ n → c ≤ n → bit_xor (bit_xor a b) c ≡ bit_xor a (bit_xor b c)
xor_assoc_within zero zero zero zero p q r = refl
xor_assoc_within zero zero zero (suc c) p q r = absurd (omega arith)
xor_assoc_within zero zero (suc b) c p q r = absurd (omega arith)
xor_assoc_within zero (suc a) b c p q r = absurd (omega arith)
xor_assoc_within (suc n) a b c p q r =
    bit_xor_step (bit_xor a b) c
    ∙ rw (xor-half a b, xor-low a b)
        (rw (bit_xor_step a (bit_xor b c), xor-half b c, xor-low b c)
          (omega (
            arith,
            xor_assoc_within n (a / 2) (b / 2) (c / 2) (omega arith) (omega arith) (omega arith),
          )))

pub xor_assoc : (a b c : ℕ) → bit_xor (bit_xor a b) c ≡ bit_xor a (bit_xor b c)
xor_assoc a b c = xor_assoc_within (a + b + c) a b c (omega arith) (omega arith) (omega arith)

-- Four words in the order that a linear map needs them.
pub xor_interchange :
    (a b c d : ℕ) → bit_xor (bit_xor a b) (bit_xor c d) ≡ bit_xor (bit_xor a c) (bit_xor b d)
xor_interchange a b c d =
    xor_assoc a b (bit_xor c d)
    ∙ rw (← xor_assoc b c d, xor_comm b c, xor_assoc c b d) (rw (← xor_assoc a c (bit_xor b d)))

-- A shift to the right goes through `^`.
pub xor-shift : (k a b : ℕ) → bit_xor a b / 2 ^ k ≡ bit_xor (a / 2 ^ k) (b / 2 ^ k)
xor-shift zero a b = div-one (bit_xor a b) ∙ ap₂ bit_xor (sym (div-one a)) (sym (div-one b))
xor-shift (suc k) a b =
    rw
      (
        pow-succ' 2 k,
        ← div-div-eq-div-mul (bit_xor a b) 2 (2 ^ k),
        ← div-div-eq-div-mul a 2 (2 ^ k),
        ← div-div-eq-div-mul b 2 (2 ^ k),
        xor-half a b,
      )
      (xor-shift k (a / 2) (b / 2))

-- Disjoint fields: low digits and a multiple of 256.
xor_fields : (k q r : ℕ) → r < 2 ^ k → bit_xor r (q * 2 ^ k) ≡ q * 2 ^ k + r
xor_fields zero q zero h = omega (arith, xor_comm 0 (q * 2 ^ 0), xor-zero (q * 2 ^ 0))
xor_fields zero q (suc r) h = absurd (omega arith)
xor_fields (suc k) q r h =
    let e : q * 2 ^ suc k ≡ 2 * (q * 2 ^ k) =
      omega (arith, ap (λ (t : ℕ). q * t) (pow-succ' 2 k)) in
    let half : q * 2 ^ suc k / 2 ≡ q * 2 ^ k = omega arith in
    bit_xor_step r (q * 2 ^ suc k)
    ∙ rw half (omega (arith, pow-succ' 2 k, xor_fields k q (r / 2) (omega arith)))

pub split_byte : (v : ℕ) → bit_xor (v % 256) (v / 256 * 256) ≡ v
split_byte v = xor_fields 8 (v / 256) (v % 256) (omega arith) ∙ omega arith
