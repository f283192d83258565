-- ===== src/Content/Loop.antt =====
-- The loop of `sf_pcre_getcontent` ends within its buffer.
use spiderframe.Base.{
  ℕ, zero, suc, ◌+◌, ◌≤◌, ◌<◌, ◌≡◌, refl, ap, ◌∙◌, Bool, true, false, some, [], ◌∷◌, ◌++◌, arith,
  Text, bytes, length, length-append, length-drop-le, drop, starts_with, ◌==◌, if◌then◌else◌,
  Bool-cases, Option-cases, ◌⊎◌, inl, inr,
}
use spiderframe.Template.{done}
use spiderframe.Content.{
  skip_past, find_gt, plain_tag, tag_rest, skip_quote, content_round, prepend, content_loop,
  sf_pcre_getcontent,
}

length-skip_past : (close p : Text) → length (skip_past close p) ≤ length p
unfolding skip_past
length-skip_past close [] = omega arith
length-skip_past close (c ∷ p) =
    ground (arith, length-skip_past close p, length-drop-le (length close) (c ∷ p))

length-find_gt : (p rest : Text) → find_gt p ≡ some rest → length rest < length p
unfolding find_gt
length-find_gt [] rest h = ground arith
length-find_gt (c ∷ p) rest h = elim (Bool-cases (c == b'>')) [
  | inl e ↦ ground arith
  | inr e ↦ omega (arith, length-find_gt p rest (rw e at h))
]

-- A round copies no more than it passes.
abbrev Passes : Text → Text × Text → Type 0
Passes p round = length round.0 + length round.1 ≤ length p

abbrev Shortens : Text → Text × Text → Type 0
Shortens p round = (1 ≤ length p → length round.1 < length p) × Passes p round

plain_tag-Shortens : (p : Text) → Shortens p (plain_tag p (find_gt p))
plain_tag-Shortens p = elim (Option-cases (find_gt p)) [
  | inl e ↦ rw e ((λ h. omega arith), omega arith)
  | inr (rest, e) ↦
      rw e ((λ h. omega (arith, length-find_gt p rest e)), omega (arith, length-find_gt p rest e))
]

length-drop-lt : (n : ℕ) (p : Text) → 1 ≤ length p → length (drop (suc n) p) < length p
length-drop-lt n [] h = absurd (omega arith)
length-drop-lt n (c ∷ p) h = omega (arith, length-drop-le n p)

skip-Shortens :
    (close : Text) (n : ℕ) (p : Text) → Shortens p ([], skip_past close (drop (suc n) p))
skip-Shortens close n p = (
  (λ h. omega (arith, length-skip_past close (drop (suc n) p), length-drop-lt n p h)),
  omega (arith, length-skip_past close (drop (suc n) p), length-drop-le (suc n) p),
)

tag_rest-Shortens : (p : Text) → Shortens p (tag_rest p)
unfolding tag_rest
tag_rest-Shortens p = elim (Bool-cases (starts_with p (bytes "<script"))) [
  | inl e ↦ rw e (skip-Shortens (bytes "</script>") 6 p)
  | inr e ↦ elim (Bool-cases (starts_with p (bytes "<style"))) [
    | inl e' ↦ rw (e, e') (skip-Shortens (bytes "</style>") 5 p)
    | inr e' ↦ rw (e, e') (plain_tag-Shortens p)
  ]
]

length-skip_quote :
    (c : ℕ) (p : Text) → (skip_quote (c ∷ p) ≡ c ∷ p) ⊎ (length (skip_quote (c ∷ p)) ≤ length p)
unfolding skip_quote
length-skip_quote c p = elim (Bool-cases (starts_with (c ∷ p) (bytes "<blockquote"))) [
  | inr e ↦ inl (rw e)
  | inl e ↦ inr (
      rw e
        (omega (arith, length-skip_past (bytes "</blockquote>") (drop 10 p), length-drop-le 10 p)))
]

-- What every round of the loop does.
pub record Progress (c : ℕ) (p : Text) (round : Text × Text) : Type 0 where
  pub shorter : length round.1 ≤ length p
  pub passes : length round.0 + length round.1 ≤ suc (length p)

Shortens-Progress :
    (c : ℕ) (p q : Text) (round : Text × Text)
    → (q ≡ c ∷ p) ⊎ (length q ≤ length p)
    → Shortens q round
    → Progress c p round
Shortens-Progress c p q round (inl e) (less, sum) =
    let l : length q ≡ suc (length p) = ap (λ (t : Text). length t) e in
    record { shorter = omega (arith, less (omega arith)); passes = omega arith }
Shortens-Progress c p q round (inr le) (less, sum) = record {
  shorter = omega arith;
  passes = omega arith;
}

if-Progress :
    (c : ℕ) (p : Text) (b : Bool) (x y : Text × Text)
    → Progress c p x
    → Progress c p y
    → Progress c p (if b then x else y)
if-Progress c p true x y l r = l
if-Progress c p false x y l r = r

pub content_round-Progress : (c : ℕ) (p : Text) → Progress c p (content_round c p)
unfolding content_round
content_round-Progress c p =
    let q = skip_quote (c ∷ p) in
    if-Progress c p (c == b'<') (tag_rest q) (c ∷ [], p)
      (Shortens-Progress c p q (tag_rest q) (length-skip_quote c p) (tag_rest-Shortens q))
      (record { shorter = omega arith; passes = omega arith })

pub content_loop_step :
    (k c : ℕ) (p copied rest out : Text)
    → content_round c p ≡ (copied, rest)
    → content_loop k rest ≡ done out
    → content_loop (suc k) (c ∷ p) ≡ done (copied ++ out)
unfolding content_loop
content_loop_step k c p copied rest out r run =
    ap (λ (round : Text × Text). prepend round.0 (content_loop k round.1)) r
    ∙ ap (prepend copied) run

content_loop-done :
    (k : ℕ) (s : Text)
    → length s < k
    → (out : Text) × (content_loop k s ≡ done out) × (length out ≤ length s)
unfolding content_loop
content_loop-done zero s h = absurd (omega arith)
content_loop-done (suc k) [] h = ([], refl, omega arith)
content_loop-done (suc k) (c ∷ p) h =
    let round = content_round c p in
    let m = content_round-Progress c p in
    let (out, run, le) = content_loop-done k round.1 (omega (arith, m.shorter)) in
    (
      round.0 ++ out,
      content_loop_step k c p round.0 round.1 out refl run,
      omega (arith, m.passes, length-append {0} round.0 out),
    )

-- On a string that is not empty, sf_pcre_getcontent ends, and what it copies is no longer than the
-- string.
pub getcontent-fits :
    (c : ℕ) (p : Text)
    → (out : Text) × (sf_pcre_getcontent (c ∷ p) ≡ done out) × (length out ≤ length (c ∷ p))
unfolding sf_pcre_getcontent
getcontent-fits c p = content_loop-done (suc (suc (length p))) (c ∷ p) (omega arith)
