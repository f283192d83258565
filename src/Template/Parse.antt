-- ===== src/Template/Parse.antt =====
-- Patterns as lists of parts.
use spiderframe.Base.{
  subst⁻¹, ℕ, zero, suc, ◌<◌, ◌≡◌, refl, ap, fun_ext, length-append, ==_iff, ◌∙◌, Bool, true, false,
  ◌&&◌, Option, none, some, List, [], ◌∷◌, ◌++◌, arith, Text, length, starts_with, ◌==◌,
  if◌then◌else◌, Bool-cases, inl, inr,
}
use spiderframe.Template.{
  Outcome, done, overflow, out_of_fuel, Part, literal, place, unclosed, find_close, closed_at,
  go_on, next_part, scan, visit_all,
}

-- The text has no `)`.
abbrev pub is_open : Text → Bool
is_open [] = true
is_open (c ∷ s) = if c == b')' then false else is_open s

-- A placeholder begins at the head.
abbrev pub begins : ℕ → ℕ → Text → Bool
begins sign c rest = c == b'(' && starts_with rest (sign ∷ [])

-- How a pattern reads as parts, from the left.
pub data Parses (sign : ℕ) : Text → List Part → Type 0 where
  end : Parses sign [] []
  byte :
      {c : ℕ} {rest : Text} {ps : List Part}
      → begins sign c rest ≡ false
      → Parses sign rest ps
      → Parses sign (c ∷ rest) (literal c ∷ ps)
  named :
      {c : ℕ} {rest : Text} {ps : List Part} (name after : Text)
      → begins sign c rest ≡ true
      → is_open name ≡ true
      → rest ≡ name ++ b')' ∷ after
      → Parses sign after ps
      → Parses sign (c ∷ rest) (place name ∷ ps)
  open_end :
      {c : ℕ} {rest : Text}
      → begins sign c rest ≡ true
      → is_open rest ≡ true
      → Parses sign (c ∷ rest) (unclosed (c ∷ rest) ∷ [])

find_close-append :
    (name after : Text)
    → is_open name ≡ true
    → find_close (name ++ b')' ∷ after) ≡ some (name, after)
unfolding find_close
find_close-append [] after h = refl
find_close-append (c ∷ name) after h = elim (Bool-cases (c == b')')) [
  | inl e ↦ ground arith
  | inr e ↦ rw (e, find_close-append name after (rw e at h))
]

find_close-none : (s : Text) → is_open s ≡ true → find_close s ≡ none
unfolding find_close
find_close-none [] h = refl
find_close-none (c ∷ s) h = elim (Bool-cases (c == b')')) [
  | inl e ↦ ground arith
  | inr e ↦ rw (e, find_close-none s (rw e at h))
]

-- A text has no `)`, or splits at its first.
data Closing (s : Text) : Type 0 where
  never : is_open s ≡ true → Closing s
  first : (name after : Text) → is_open name ≡ true → s ≡ name ++ b')' ∷ after → Closing s

Closing-cons : (c : ℕ) (s : Text) → (c == b')') ≡ false → Closing s → Closing (c ∷ s)
Closing-cons c s e (never h) = never (rw e h)
Closing-cons c s e (first name after h split) =
    first (c ∷ name) after (rw e h) (ap (λ (t : Text). c ∷ t) split)

closing : (s : Text) → Closing s
closing [] = never refl
closing (c ∷ s) = elim (Bool-cases (c == b')')) [
  | inl e ↦ first [] s refl (ap (λ (d : ℕ). d ∷ s) ((==_iff c b')').0 e))
  | inr e ↦ Closing-cons c s e (closing s)
]

next_part-literal :
    (sign c : ℕ) (rest : Text)
    → begins sign c rest ≡ false
    → next_part sign c rest ≡ (literal c, rest)
unfolding next_part
next_part-literal sign c rest h = rw h

next_part-place :
    (sign c : ℕ) (rest name after : Text)
    → begins sign c rest ≡ true
    → is_open name ≡ true
    → rest ≡ name ++ b')' ∷ after
    → next_part sign c rest ≡ (place name, after)
unfolding next_part
next_part-place sign c rest name after h o split =
    rw h (ap (closed_at (c ∷ rest)) (ap find_close split ∙ find_close-append name after o))

next_part-unclosed :
    (sign c : ℕ) (rest : Text)
    → begins sign c rest ≡ true
    → is_open rest ≡ true
    → next_part sign c rest ≡ (unclosed (c ∷ rest), [])
unfolding next_part
next_part-unclosed sign c rest h o = rw h (ap (closed_at (c ∷ rest)) (find_close-none rest o))

length-after : (rest name after : Text) → rest ≡ name ++ b')' ∷ after → length after < length rest
length-after rest name after split =
    omega (arith, ap (λ (t : Text). length t) split, length-append {0} name (b')' ∷ after))

module _ {S : Type 0} (sign : ℕ) (visit : Part → S → Option S) where
  -- One round: the part at the head is visited, and the loop goes on behind it.
  scan_step :
      (k c : ℕ) (rest after : Text) (part : Part) (ps : List Part) (s : S)
      → next_part sign c rest ≡ (part, after)
      → ((s' : S) → scan sign visit k after s' ≡ visit_all sign visit ps s')
      → scan sign visit (suc k) (c ∷ rest) s ≡ visit_all sign visit (part ∷ ps) s
  unfolding scan visit_all
  scan_step k c rest after part ps s e ih =
      ap (λ (step : Part × Text). go_on (scan sign visit k step.1) (visit step.0 s)) e
      ∙ ap (λ f. go_on f (visit part s)) (fun_ext ih)

  scan_end : (k : ℕ) (s : S) → scan sign visit (suc k) [] s ≡ visit_all sign visit [] s
  unfolding scan visit_all
  scan_end k s = refl

  -- For a pattern that reads as parts, and with fuel above its bytes, the loop visits the parts in
  -- order until one of them does not fit.
  pub scan-visit_all :
      (k : ℕ) {e : Text} {ps : List Part} (s : S)
      → Parses sign e ps
      → length e < k
      → scan sign visit k e s ≡ visit_all sign visit ps s
  scan-visit_all zero s p fuel = absurd (omega arith)
  scan-visit_all (suc k) s end fuel = scan_end k s
  scan-visit_all (suc k) s (byte {c} {rest} {ps} h p) fuel =
      scan_step k c rest rest (literal c) ps s (next_part-literal sign c rest h)
        (λ s'. scan-visit_all k s' p (omega arith))
  scan-visit_all (suc k) s (named {c} {rest} {ps} name after h o split p) fuel =
      scan_step k c rest after (place name) ps s (next_part-place sign c rest name after h o split)
        (λ s'. scan-visit_all k s' p (omega (arith, length-after rest name after split)))
  scan-visit_all (suc zero) s (open_end {c} {rest} h o) fuel = absurd (omega arith)
  scan-visit_all (suc (suc k)) s (open_end {c} {rest} h o) fuel =
      scan_step (suc k) c rest [] (unclosed (c ∷ rest)) [] s (next_part-unclosed sign c rest h o)
        (scan_end k)

parse_within : (sign k : ℕ) (e : Text) → length e < k → (ps : List Part) × Parses sign e ps
parse_within sign zero e fuel = absurd (omega arith)
parse_within sign (suc k) [] fuel = ([], end)
parse_within sign (suc k) (c ∷ rest) fuel = elim (Bool-cases (begins sign c rest)) [
  | inr h ↦ let (ps, p) = parse_within sign k rest (omega arith) in (literal c ∷ ps, byte h p)
  | inl h ↦ elim (closing rest) [
    | never o ↦ (unclosed (c ∷ rest) ∷ [], open_end h o)
    | first name after o split ↦
        let (ps, p) =
          parse_within sign k after (omega (arith, length-after rest name after split)) in
        (place name ∷ ps, named name after h o split p)
  ]
]

-- Every pattern reads as parts.
pub parse : (sign : ℕ) (e : Text) → (ps : List Part) × Parses sign e ps
parse sign e = parse_within sign (suc (length e)) e (omega arith)

-- The fuel was enough.
abbrev pub IsEnded : {A : Type 0} → Outcome A → Type 0
IsEnded (done a) = Unit
IsEnded overflow = Unit
IsEnded out_of_fuel = ⊥

go_on-IsEnded :
    {S : Type 0} (f : S → Outcome S) (o : Option S)
    → ((s : S) → IsEnded (f s))
    → IsEnded (go_on f o)
go_on-IsEnded f none h = tt
go_on-IsEnded f (some s) h = h s

visit_all-IsEnded :
    {S : Type 0} (sign : ℕ) (visit : Part → S → Option S) (ps : List Part) (s : S)
    → IsEnded (visit_all sign visit ps s)
unfolding visit_all
visit_all-IsEnded sign visit [] s = tt
visit_all-IsEnded sign visit (p ∷ ps) s =
    go_on-IsEnded (visit_all sign visit ps) (visit p s) (visit_all-IsEnded sign visit ps)

-- The fuel of the three copies of the loop is enough for every pattern.
pub scan-IsEnded :
    {S : Type 0} (sign : ℕ) (visit : Part → S → Option S) (e : Text) (s : S)
    → IsEnded (scan sign visit (suc (length e)) e s)
scan-IsEnded sign visit e s =
    let (ps, p) = parse sign e in
    subst⁻¹ IsEnded (scan-visit_all sign visit (suc (length e)) s p (omega arith))
      (visit_all-IsEnded sign visit ps s)
