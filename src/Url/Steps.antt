-- ===== src/Url/Steps.antt =====
-- The steps of the two loops of `redurceurl`.
use spiderframe.Base.{
  ℕ, zero, suc, ◌+◌, ◌≤◌, ◌<◌, ◌≡◌, refl, sym, ap, ◌∙◌, true, false, none, some, [], ◌∷◌, ◌++◌,
  arith, Text, bytes, length, length-append, leb, drop, starts_with, Option-cases, Bool-cases, inl,
  inr,
}
use spiderframe.Template.{done, out_of_fuel}
use spiderframe.Url.{find_sub, parent, temp_size, up_back, up_step, up_loop, here_step, here_loop}

starts-length :
    (s needle : Text)
    → starts_with s needle ≡ true
    → length (drop (length needle) s) + length needle ≡ length s
starts-length s [] h = omega arith
starts-length [] (y ∷ ys) h = ground arith
starts-length (x ∷ s) (y ∷ ys) h = ground (arith, starts-length s ys)

-- An occurrence and what surrounds it are the whole text.
pub find_sub-length :
    (needle s before after : Text)
    → find_sub needle s ≡ some (before, after)
    → length before + length needle + length after ≡ length s
unfolding find_sub
find_sub-length needle [] before after h = elim (Bool-cases (starts_with [] needle)) [
  | inl e ↦ ground (arith, starts-length [] needle)
  | inr e ↦ ground arith
]
find_sub-length needle (c ∷ s) before after h = elim (Bool-cases (starts_with (c ∷ s) needle)) [
  | inl e ↦ ground (arith, starts-length (c ∷ s) needle)
  | inr e ↦ elim (Option-cases (find_sub needle s)) [
    | inl n ↦ ground arith
    | inr ((b, a), n) ↦ ground (arith, find_sub-length needle s b a)
  ]
]

length-parent : (s base : Text) → parent s ≡ some base → length base ≤ length s
unfolding parent
length-parent [] base h = ground arith
length-parent (c ∷ s) base h = elim (Option-cases (parent s)) [
  | inl n ↦ ground arith
  | inr (b, n) ↦ ground (arith, length-parent s b)
]

-- One `/../` is taken out with the segment before it.
pub data Up (url next : Text) : Type 0 where
  up :
      (before after base : Text)
      → find_sub (bytes "/../") url ≡ some (before, after)
      → parent before ≡ some base
      → next ≡ base ++ after
      → Up url next

-- There is a `/../`, and no slash before it.
pub data Stuck (url : Text) : Type 0 where
  stuck :
      (before after : Text)
      → find_sub (bytes "/../") url ≡ some (before, after)
      → parent before ≡ none
      → Stuck url

-- One `/./` is made a slash.
pub data Here (url next : Text) : Type 0 where
  here :
      (before after : Text)
      → find_sub (bytes "/./") url ≡ some (before, after)
      → next ≡ before ++ b'/' ∷ after
      → Here url next

-- Any number of steps.
pub data Star (R : Text → Text → Type 0) : Text → Text → Type 0 where
  stay : {s : Text} → Star R s s
  step : {s t u : Text} → R s t → Star R t u → Star R s u

pub Up-shorter : (url next : Text) → Up url next → length next < length url
Up-shorter url next (up before after base f b e) = omega (
  arith,
  find_sub-length (bytes "/../") url before after f,
  length-parent before base b,
  ap (λ (t : Text). length t) e,
  length-append {0} base after,
)

pub Here-shorter : (url next : Text) → Here url next → length next < length url
Here-shorter url next (here before after f e) = omega (
  arith,
  find_sub-length (bytes "/./") url before after f,
  ap (λ (t : Text). length t) e,
  length-append {0} before (b'/' ∷ after),
)

pub up_loop-Up :
    (k : ℕ) (url next : Text)
    → length url ≤ 256
    → Up url next
    → up_loop (suc k) url ≡ up_loop k next
unfolding up_loop
up_loop-Up k url next small (up before after base f b e) =
    let len : leb temp_size (length after) ≡ false =
      ground (arith, find_sub-length (bytes "/../") url before after f) in
    ap (up_step (up_loop k) url) f ∙ ap (up_back (up_loop k) url after) b ∙ rw (len, sym e) refl

pub up_loop-Stuck : (k : ℕ) (url : Text) → Stuck url → up_loop k url ≡ out_of_fuel
unfolding up_loop
up_loop-Stuck zero url s = refl
up_loop-Stuck (suc k) url (stuck before after f b) =
    ap (up_step (up_loop k) url) f
    ∙ ap (up_back (up_loop k) url after) b
    ∙ up_loop-Stuck k url (stuck before after f b)

pub here_loop-Here :
    (k : ℕ) (url next : Text)
    → length url ≤ 256
    → Here url next
    → here_loop (suc k) url ≡ here_loop k next
unfolding here_loop
here_loop-Here k url next small (here before after f e) =
    let len : leb temp_size (suc (length after)) ≡ false =
      ground (arith, find_sub-length (bytes "/./") url before after f) in
    ap (here_step (here_loop k) url) f ∙ rw (len, sym e) refl

pub up_loop_end :
    (k : ℕ) (url : Text) → find_sub (bytes "/../") url ≡ none → up_loop (suc k) url ≡ done url
unfolding up_loop
up_loop_end k url f = ap (up_step (up_loop k) url) f

pub here_loop_end :
    (k : ℕ) (url : Text) → find_sub (bytes "/./") url ≡ none → here_loop (suc k) url ≡ done url
unfolding here_loop
here_loop_end k url f = ap (here_step (here_loop k) url) f
