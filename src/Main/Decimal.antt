-- ===== src/Main/Decimal.antt =====
-- Numbers as the arguments of the program, and what atoi makes of them.
use spiderframe.Base.{
  ℕ, zero, suc, ◌+◌, ◌-◌, ◌*◌, ◌/◌, ◌%◌, ◌≤◌, ◌<◌, ◌≡◌, refl, sym, ap, ◌∙◌, arith, Bool, true,
  false, [], ◌∷◌, ◌++◌, Text, ltb, if◌then◌else◌,
}
use spiderframe.Base.Int.{pos, is_digit, digits_from, signed, atoi}

-- The decimal digits of `n`, at most `k` of them.
unfoldable pub show_within : ℕ → ℕ → Text
show_within zero n = []
show_within (suc k) n =
    let front = show_within k (n / 10) in
    if ltb n 10 then (b'0' + n) ∷ [] else front ++ (b'0' + n % 10) ∷ []

abbrev pub show : ℕ → Text
show n = show_within (suc n) n

abbrev AreDigits : Text → Type 0
AreDigits [] = Unit
AreDigits (c ∷ s) = (is_digit c ≡ true) × AreDigits s

digit-is_digit : (d : ℕ) → d < 10 → is_digit (b'0' + d) ≡ true
digit-is_digit d lt = ground arith

AreDigits-append : (s t : Text) → AreDigits s → AreDigits t → AreDigits (s ++ t)
AreDigits-append [] t h g = g
AreDigits-append (c ∷ s) t (d, h) g = (d, AreDigits-append s t h g)

digits_from-digit :
    (m c : ℕ) (s : Text)
    → is_digit c ≡ true
    → digits_from m (c ∷ s) ≡ digits_from (m * 10 + (c - b'0')) s
unfolding digits_from
digits_from-digit m c s h = ap (λ b. if b then digits_from (m * 10 + (c - b'0')) s else m) h

digits_from-snoc :
    (m : ℕ) (s : Text) (d : ℕ)
    → AreDigits s
    → d < 10
    → digits_from m (s ++ (b'0' + d) ∷ []) ≡ digits_from m s * 10 + d
unfolding digits_from
digits_from-snoc m [] d h lt = digits_from-digit m (b'0' + d) [] (digit-is_digit d lt) ∙ omega arith
digits_from-snoc m (c ∷ s) d (e, h) lt =
    digits_from-digit m c (s ++ (b'0' + d) ∷ []) e
    ∙ digits_from-snoc (m * 10 + (c - b'0')) s d h lt
    ∙ ap (λ n. n * 10 + d) (sym (digits_from-digit m c s e))

-- Digits that read as the number they were made from.
record Reads (n : ℕ) (s : Text) : Type 0 where
  digits : AreDigits s
  value : digits_from 0 s ≡ n

by_tenth : (n k : ℕ) → n < suc k → 10 ≤ n → n / 10 < k
by_tenth n k lt le = omega arith

show-Reads : (k n : ℕ) → n < k → Reads n (show_within k n)
unfolding show_within digits_from
show-Reads zero n lt = absurd (omega arith)
show-Reads (suc k) n lt = by_size (ltb n 10) refl (show-Reads k (n / 10))
  where
    by_size :
        (b : Bool)
        → ltb n 10 ≡ b
        → ((n / 10 < k) → Reads (n / 10) (show_within k (n / 10)))
        → Reads n (if b then (b'0' + n) ∷ [] else show_within k (n / 10) ++ (b'0' + n % 10) ∷ [])
    by_size true e ih = record {
      digits = (digit-is_digit n (ground arith), tt);
      value = digits_from-digit 0 (b'0' + n) [] (digit-is_digit n (ground arith)) ∙ omega arith;
    }
    by_size false e ih =
        let r : Reads (n / 10) (show_within k (n / 10)) = ih (by_tenth n k lt (ground arith)) in
        record {
          digits =
              AreDigits-append (show_within k (n / 10)) _ r.digits
                (digit-is_digit (n % 10) (omega arith), tt);
          value =
              digits_from-snoc 0 (show_within k (n / 10)) (n % 10) r.digits (omega arith)
              ∙ ap (λ m. m * 10 + n % 10) r.value
              ∙ omega arith;
        }

-- Digits hold no space and no sign.
atoi-digits : (s : Text) → AreDigits s → atoi s ≡ pos (digits_from 0 s)
unfolding atoi signed digits_from
atoi-digits [] h = refl
atoi-digits (c ∷ s) (d, h) = ground arith

pub atoi-show : (n : ℕ) → atoi (show n) ≡ pos n
atoi-show n =
    let r = show-Reads (suc n) n (omega arith) in atoi-digits (show n) r.digits ∙ ap pos r.value
