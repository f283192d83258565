-- ===== src/Base/Int.antt =====
-- C's `int` as an integer, with the values of `atoi`.
use spiderframe.Base.Tests.{ltb, leb, ◌==◌, if◌then◌else◌}
use spiderframe.Base.Lists.{Text}
use Prim.Native.Nat.{ℕ, zero, suc, ◌+◌, ◌-◌, ◌*◌}
use mathlib.Core.Bool.{Bool, true, false, ◌&&◌, ◌||◌}
use mathlib.Core.List.{[], ◌∷◌}

-- `negsuc n` is -(n + 1).
pub data ℤ : Type 0 where
  pos : ℕ → ℤ
  negsuc : ℕ → ℤ

abbrev pub pos_part : ℤ → ℕ
pos_part (pos n) = n
pos_part (negsuc n) = 0

abbrev pub neg_part : ℤ → ℕ
neg_part (pos n) = 0
neg_part (negsuc n) = suc n

abbrev pub ltb_ℤ : ℤ → ℤ → Bool
ltb_ℤ a b = ltb (pos_part a + neg_part b) (pos_part b + neg_part a)

abbrev pub neg : ℕ → ℤ
neg zero = pos zero
neg (suc n) = negsuc n

abbrev pub is_space : ℕ → Bool
is_space c = (c == 32) || (leb 9 c && leb c 13)

abbrev pub is_digit : ℕ → Bool
is_digit c = leb b'0' c && leb c b'9'

-- The digits at the head of a text, behind those that gave `n`.
unfoldable pub digits_from : ℕ → Text → ℕ
digits_from n [] = n
digits_from n (c ∷ s) = if is_digit c then digits_from (n * 10 + (c - b'0')) s else n

unfoldable pub signed : Text → ℤ
unfolding digits_from
signed [] = pos 0
signed (c ∷ s) =
    if c == b'-'
    then neg (digits_from 0 s)
    else if c == b'+'
    then pos (digits_from 0 s)
    else pos (digits_from 0 (c ∷ s))

-- `atoi`. A number outside of `int`, which C leaves undefined, is kept as it stands.
unfoldable pub atoi : Text → ℤ
unfolding signed
atoi [] = pos 0
atoi (c ∷ s) = if is_space c then atoi s else signed (c ∷ s)

-- A count that goes up by one.
abbrev pub suc_ℤ : ℤ → ℤ
suc_ℤ (pos n) = pos (suc n)
suc_ℤ (negsuc zero) = pos 0
suc_ℤ (negsuc (suc n)) = negsuc n

abbrev pub abs : ℤ → ℕ
abs (pos n) = n
abs (negsuc n) = suc n

abbrev pub is_zero : ℤ → Bool
is_zero (pos zero) = true
is_zero (pos (suc n)) = false
is_zero (negsuc n) = false
