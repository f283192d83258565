-- ===== src/Base/Bits.antt =====
-- Bit operations on native numbers at variables: bounds of `^` and `&`, masks, powers of two.
use Prim.Native.Nat.{
  ℕ, zero, suc, ◌+◌, ◌-◌, ◌*◌, ◌/◌, ◌%◌, ◌^◌, ◌≤◌, ◌<◌, min, bit_and, bit_xor, digits, bitwise,
  differ, bit_and-bitwise, bit_xor-bitwise,
}
use mathlib.Core.Path.{◌≡◌, refl, sym, ap, ◌∙◌}
use native.Mathlib.Nat.{
  mul-lt-mul_of_pos_right, le_refl, pow-suc, one-le-pow, div-add-mod', mod-lt, mod-eq_of_lt,
  add-mul-mod_self_right,
}
use native.Mathlib.Omega.{arith}

module _ (z : ℕ → ℕ) (f : ℕ → ℕ → ℕ) where
  digits_enough : (k l x y : ℕ) → x ≤ l → x ≤ k → digits z f l x y ≡ digits z f k x y
  digits_enough (suc k) (suc l) (suc x) y le_l le_k =
      rw (digits_enough k l (suc x / 2) (y / 2) (omega arith) (omega arith))
  digits_enough (suc k) (suc l) zero y le_l le_k = refl
  digits_enough k zero (suc x) y le_l le_k = absurd (omega arith)
  digits_enough zero (suc l) (suc x) y le_l le_k = absurd (omega arith)
  digits_enough zero zero zero y le_l le_k = refl
  digits_enough (suc k) zero zero y le_l le_k = refl
  digits_enough zero (suc l) zero y le_l le_k = refl

  bitwise_halves :
      (x y : ℕ)
      → bitwise z f (suc x) y ≡ bitwise z f (suc x / 2) (y / 2) * 2 + f (suc x % 2) (y % 2)
  bitwise_halves x y =
      omega (arith, digits_enough (suc x / 2) x (suc x / 2) (y / 2) (omega arith) (le_refl _))

-- The law of `&` for the lowest digit.
pub bit_and_step : (x y : ℕ) → bit_and x y ≡ min (x % 2) (y % 2) + 2 * bit_and (x / 2) (y / 2)
bit_and_step (suc x) y = simp bit_and-bitwise (omega (arith, bitwise_halves (λ d. 0) min x y))
bit_and_step zero y = simp bit_and-bitwise (omega arith)

differ_bits : (x y : ℕ) → x < 2 → y < 2 → differ x y ≡ (x + y) % 2
differ_bits zero y p q = omega arith
differ_bits (suc x) zero p q = omega arith
differ_bits (suc zero) (suc zero) p q = omega arith
differ_bits (suc zero) (suc (suc y)) p q = absurd (omega arith)
differ_bits (suc (suc x)) (suc y) p q = absurd (omega arith)

-- The law of `^` for the lowest digit.
pub bit_xor_step : (a b : ℕ) → bit_xor a b ≡ bit_xor (a / 2) (b / 2) * 2 + (a % 2 + b % 2) % 2
bit_xor_step zero b = simp bit_xor-bitwise (omega arith)
bit_xor_step (suc a) b = simp bit_xor-bitwise (
    bitwise_halves (λ y. y) differ a b
    ∙ ap (λ (t : ℕ). bitwise (λ y. y) differ (suc a / 2) (b / 2) * 2 + t)
        (differ_bits (suc a % 2) (b % 2) (omega arith) (omega arith)))

-- `^` of two n-bit words is an n-bit word.
pub bit_xor-lt : (n a b : ℕ) → a < 2 ^ n → b < 2 ^ n → bit_xor a b < 2 ^ n
bit_xor-lt zero zero zero p q = omega arith
bit_xor-lt zero zero (suc b) p q = absurd (omega arith)
bit_xor-lt zero (suc a) b p q = absurd (omega arith)
bit_xor-lt (suc n) a b p q =
    let e = pow-suc 2 n in
    omega (arith, bit_xor_step a b, bit_xor-lt n (a / 2) (b / 2) (omega arith) (omega arith))

bit_and-zero_within : (n a : ℕ) → a ≤ n → bit_and a 0 ≡ 0
bit_and-zero_within n zero h = refl
bit_and-zero_within zero (suc a) h = absurd (omega arith)
bit_and-zero_within (suc n) (suc a) h =
    omega (arith, bit_and_step (suc a) 0, bit_and-zero_within n (suc a / 2) (omega arith))

pub bit_and-zero : (a : ℕ) → bit_and a 0 ≡ 0
bit_and-zero a = bit_and-zero_within a a (le_refl a)

-- A remainder by an even number, from its lowest digit.
mod_double : (m a : ℕ) → 0 < m → a % (m * 2) ≡ a / 2 % m * 2 + a % 2
mod_double m a h =
    let r = a / 2 % m * 2 + a % 2 in
    let e : a ≡ r + a / 2 / m * (m * 2) = omega (arith, div-add-mod' (a / 2) m) in
    let small : r < m * 2 = omega (arith, mod-lt (a / 2) h) in
    ap (λ (t : ℕ). t % (m * 2)) e
    ∙ add-mul-mod_self_right r (a / 2 / m) (m * 2)
    ∙ mod-eq_of_lt small

-- A mask of `k` low bits is the remainder by `2 ^ k`.
pub bit_and_mask : (k a : ℕ) → bit_and a (2 ^ k - 1) ≡ a % 2 ^ k
bit_and_mask zero a = omega (arith, bit_and-zero a)
bit_and_mask (suc k) a =
    let e = pow-suc 2 k in
    let p = one-le-pow k 2 (omega arith) in
    let half : (2 ^ suc k - 1) / 2 ≡ 2 ^ k - 1 = omega arith in
    let odd : (2 ^ suc k - 1) % 2 ≡ 1 = omega arith in
    bit_and_step a (2 ^ suc k - 1)
    ∙ rw (half, odd, bit_and_mask k (a / 2), e, mod_double (2 ^ k) a p) (omega arith)

-- `&` is at most its right operand.
pub bit_and-lt : (n a b : ℕ) → b < 2 ^ n → bit_and a b < 2 ^ n
bit_and-lt zero a zero q = omega (arith, bit_and-zero a)
bit_and-lt zero a (suc b) q = absurd (omega arith)
bit_and-lt (suc n) a b q =
    let e = pow-suc 2 n in
    omega (arith, bit_and_step a b, bit_and-lt n (a / 2) (b / 2) (omega arith))

pub pow-add : (a b : ℕ) → 2 ^ (a + b) ≡ 2 ^ a * 2 ^ b
pow-add zero b = let e : zero + b ≡ b = omega arith in rw e (omega arith)
pow-add (suc a) b =
    let e : suc a + b ≡ suc (a + b) = omega arith in
    rw (e, pow-suc 2 (a + b), pow-suc 2 a, pow-add a b) (omega arith)

-- A common factor goes out of a remainder.
pub scale_mod : (t n m : ℕ) → 0 < n → 0 < m → t * m % (n * m) ≡ t % n * m
scale_mod t n m hn hm =
    let q = t / n in
    let r = t % n in
    let e : t * m ≡ r * m + q * (n * m) =
      ap (λ (x : ℕ). x * m) (sym (div-add-mod' t n)) ∙ omega arith in
    let small : r * m < n * m = mul-lt-mul_of_pos_right (mod-lt t hn) hm in
    ap (λ (x : ℕ). x % (n * m)) e ∙ add-mul-mod_self_right (r * m) q (n * m) ∙ mod-eq_of_lt small

pub pow_pos : (k : ℕ) → 0 < 2 ^ k
pow_pos k = one-le-pow k 2 (omega arith)
