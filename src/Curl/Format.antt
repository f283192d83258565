-- ===== src/Curl/Format.antt =====
-- A URL as the format of `fprintf`.
use spiderframe.Base.{
  ℕ, ◌≡◌, refl, subst⁻¹, ==_iff, Bool, true, false, [], ◌∷◌, Text, ◌==◌, if◌then◌else◌,
}
use spiderframe.Template.{Outcome, done, overflow}
use spiderframe.Curl.{print_byte, print_format}

-- What a URL prints as a format: `%%` is one `%`, and other bytes stand for themselves.
pub data Formats : Text → Text → Type 0 where
  formats_nil : Formats [] []
  formats_byte : (c : ℕ) (u t : Text) → (c == b'%') ≡ false → Formats u t → Formats (c ∷ u) (c ∷ t)
  formats_percent : (u t : Text) → Formats u t → Formats (b'%' ∷ b'%' ∷ u) (b'%' ∷ t)

-- A conversion stands in it, or a `%` at its end.
pub data Converts : Text → Type 0 where
  at_end : Converts (b'%' ∷ [])
  conversion : (d : ℕ) (u : Text) → (d == b'%') ≡ false → Converts (b'%' ∷ d ∷ u)
  behind_byte : (c : ℕ) (u : Text) → (c == b'%') ≡ false → Converts u → Converts (c ∷ u)
  behind_percent : (u : Text) → Converts u → Converts (b'%' ∷ b'%' ∷ u)

-- How a URL reads as a format, and what is printed.
pub data Printed (u : Text) : Outcome Text → Type 0 where
  prints : (t : Text) → Formats u t → Printed u (done t)
  stray : Converts u → Printed u overflow

byte-Printed :
    (c : ℕ) (u : Text) (o : Outcome Text)
    → (c == b'%') ≡ false
    → Printed u o
    → Printed (c ∷ u) (print_byte c o)
byte-Printed c u o e (prints t m) = prints (c ∷ t) (formats_byte c u t e m)
byte-Printed c u o e (stray m) = stray (behind_byte c u e m)

percent-Printed :
    (u : Text) (o : Outcome Text) → Printed u o → Printed (b'%' ∷ b'%' ∷ u) (print_byte b'%' o)
percent-Printed u o (prints t m) = prints (b'%' ∷ t) (formats_percent u t m)
percent-Printed u o (stray m) = stray (behind_percent u m)

two-Printed :
    (c d : ℕ) (u : Text) (rest behind : Outcome Text) (at_c at_d : Bool)
    → (c == b'%') ≡ at_c
    → (d == b'%') ≡ at_d
    → Printed (d ∷ u) rest
    → Printed u behind
    → Printed
        (c ∷ d ∷ u)
        (if at_c then (if at_d then print_byte b'%' behind else overflow) else print_byte c rest)
two-Printed c d u rest behind false at_d e f m n = byte-Printed c (d ∷ u) rest e m
two-Printed c d u rest behind true true e f m n =
    subst⁻¹ (λ (x : ℕ). Printed (x ∷ d ∷ u) (print_byte b'%' behind)) ((==_iff c b'%').0 e)
      (subst⁻¹ (λ (y : ℕ). Printed (b'%' ∷ y ∷ u) (print_byte b'%' behind)) ((==_iff d b'%').0 f)
        (percent-Printed u behind n))
two-Printed c d u rest behind true false e f m n =
    subst⁻¹ (λ (x : ℕ). Printed (x ∷ d ∷ u) overflow) ((==_iff c b'%').0 e)
      (stray (conversion d u f))

one-Printed :
    (c : ℕ) (at_c : Bool)
    → (c == b'%') ≡ at_c
    → Printed (c ∷ []) (if at_c then overflow else done (c ∷ []))
one-Printed c true e =
    subst⁻¹ (λ (x : ℕ). Printed (x ∷ []) overflow) ((==_iff c b'%').0 e) (stray at_end)
one-Printed c false e = prints (c ∷ []) (formats_byte c [] [] e formats_nil)

pub print_format-Printed : (u : Text) → Printed u (print_format u)
unfolding print_format
print_format-Printed [] = prints [] formats_nil
print_format-Printed (c ∷ []) = one-Printed c (c == b'%') refl
print_format-Printed (c ∷ d ∷ u) =
    two-Printed c d u (print_format (d ∷ u)) (print_format u) (c == b'%') (d == b'%') refl refl
      (print_format-Printed (d ∷ u)) (print_format-Printed u)
