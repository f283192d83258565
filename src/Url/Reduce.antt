-- ===== src/Url/Reduce.antt =====
-- When `redurceurl` ends, and with what.
use spiderframe.Base.{
  ℕ, zero, suc, ◌≤◌, ◌<◌, ◌≡◌, refl, ap, ◌∙◌, none, ◌∷◌, ◌++◌, arith, Text, bytes, length,
  Option-cases, inl, inr,
}
use spiderframe.Template.{done, out_of_fuel}
use spiderframe.Url.{find_sub, parent, up_loop, here_loop, then_here, redurceurl}
use spiderframe.Url.Steps.{
  Up, up, Stuck, stuck, Here, here, Star, stay, step, Up-shorter, Here-shorter, up_loop-Up,
  up_loop-Stuck, here_loop-Here, up_loop_end, here_loop_end,
}

-- How the first loop goes from a URL: to one without `/../`, or to one where it goes round for
-- ever.
pub data Ups (url : Text) : Type 0 where
  ends :
      (mid : Text)
      → Star Up url mid
      → find_sub (bytes "/../") mid ≡ none
      → length mid ≤ length url
      → ((k : ℕ) → length url < k → up_loop k url ≡ done mid)
      → Ups url
  hangs :
      (mid : Text) → Star Up url mid → Stuck mid → ((k : ℕ) → up_loop k url ≡ out_of_fuel) → Ups url

up_loop_hang :
    (url next : Text)
    → length url ≤ 256
    → Up url next
    → ((k : ℕ) → up_loop k next ≡ out_of_fuel)
    → (k : ℕ) → up_loop k url ≡ out_of_fuel
unfolding up_loop
up_loop_hang url next small u h zero = refl
up_loop_hang url next small u h (suc k) = up_loop-Up k url next small u ∙ h k

up_loop_more :
    (url next mid : Text)
    → length url ≤ 256
    → Up url next
    → ((k : ℕ) → length next < k → up_loop k next ≡ done mid)
    → (k : ℕ) → length url < k
    → up_loop k url ≡ done mid
up_loop_more url next mid small u h zero lt = absurd (omega arith)
up_loop_more url next mid small u h (suc k) lt =
    up_loop-Up k url next small u ∙ h k (omega (arith, Up-shorter url next u))

up_loop_now :
    (url : Text)
    → find_sub (bytes "/../") url ≡ none
    → (k : ℕ) → length url < k
    → up_loop k url ≡ done url
up_loop_now url f zero lt = absurd (omega arith)
up_loop_now url f (suc k) lt = up_loop_end k url f

Ups-cons : (url next : Text) → length url ≤ 256 → Up url next → Ups next → Ups url
Ups-cons url next small u (ends mid r f le run) =
    ends mid (step u r) f (omega (arith, Up-shorter url next u))
      (up_loop_more url next mid small u run)
Ups-cons url next small u (hangs mid r s run) =
    hangs mid (step u r) s (up_loop_hang url next small u run)

Ups-within : (n : ℕ) (url : Text) → length url < n → length url ≤ 256 → Ups url
Ups-within zero url lt small = absurd (omega arith)
Ups-within (suc n) url lt small = elim (Option-cases (find_sub (bytes "/../") url)) [
  | inl f ↦ ends url stay f (omega arith) (up_loop_now url f)
  | inr ((before, after), f) ↦ elim (Option-cases (parent before)) [
    | inl b ↦
        hangs url stay (stuck before after f b) (λ k. up_loop-Stuck k url (stuck before after f b))
    | inr (base, b) ↦
        let u : Up url (base ++ after) = up before after base f b refl in
        let lt' = Up-shorter url (base ++ after) u in
        Ups-cons url (base ++ after) small u
          (Ups-within n (base ++ after) (omega arith) (omega arith))
  ]
]

-- For a URL of at most 256 bytes the loop on `/../` either ends, on a URL with none left that its
-- steps reach, or it reaches a URL with `/../` and no slash before it, and then no fuel is enough.
pub up_loop-Ups : (url : Text) → length url ≤ 256 → Ups url
up_loop-Ups url small = Ups-within (suc (length url)) url (omega arith) small

-- What the second loop reaches, and with how much fuel.
pub record Heres (url : Text) (final : Text) : Type 0 where
  pub reached : Star Here url final
  pub clean : find_sub (bytes "/./") final ≡ none
  pub shorter : length final ≤ length url
  pub run : (k : ℕ) → length url < k → here_loop k url ≡ done final

here_loop_now :
    (url : Text)
    → find_sub (bytes "/./") url ≡ none
    → (k : ℕ) → length url < k
    → here_loop k url ≡ done url
here_loop_now url f zero lt = absurd (omega arith)
here_loop_now url f (suc k) lt = here_loop_end k url f

here_loop_more :
    (url next final : Text)
    → length url ≤ 256
    → Here url next
    → ((k : ℕ) → length next < k → here_loop k next ≡ done final)
    → (k : ℕ) → length url < k
    → here_loop k url ≡ done final
here_loop_more url next final small u h zero lt = absurd (omega arith)
here_loop_more url next final small u h (suc k) lt =
    here_loop-Here k url next small u ∙ h k (omega (arith, Here-shorter url next u))

Heres-within :
    (n : ℕ) (url : Text) → length url < n → length url ≤ 256 → (final : Text) × Heres url final
Heres-within zero url lt small = absurd (omega arith)
Heres-within (suc n) url lt small = elim (Option-cases (find_sub (bytes "/./") url)) [
  | inl f ↦
      (url, record { reached = stay; clean = f; shorter = omega arith; run = here_loop_now url f })
  | inr ((before, after), f) ↦
      let next = before ++ b'/' ∷ after in
      let u : Here url next = here before after f refl in
      let lt' = Here-shorter url next u in
      let (final, h) = Heres-within n next (omega arith) (omega arith) in
      (
        final,
        record {
          reached = step u h.reached;
          clean = h.clean;
          shorter = omega (arith, h.shorter);
          run = here_loop_more url next final small u h.run;
        },
      )
]

Ups-length : {url mid : Text} → Star Up url mid → length mid ≤ length url
Ups-length stay = omega arith
Ups-length (step {s} {t} {u} x r) = omega (arith, Ups-length r, Up-shorter s t x)

up_loop-Star :
    {url mid : Text}
    → Star Up url mid
    → length url ≤ 256
    → find_sub (bytes "/../") mid ≡ none
    → (k : ℕ) → length url < k
    → up_loop k url ≡ done mid
up_loop-Star (stay {s}) small f = up_loop_now s f
up_loop-Star (step {s} {t} {u} x r) small f =
    up_loop_more s t u small x (up_loop-Star r (omega (arith, Up-shorter s t x)) f)

-- If the steps of the first loop take a URL of at most 256 bytes to `mid`, which has no `/../`,
-- then `redurceurl` returns: a URL that is no longer, has no `/./` and is `mid` with each `/./`
-- made a slash.
pub redurceurl-Heres :
    (url mid : Text)
    → length url ≤ 256
    → find_sub (bytes "/../") mid ≡ none
    → Star Up url mid
    → (final : Text) × Heres mid final
      × (length final ≤ length url)
      × ((k : ℕ) → length url < k → redurceurl k url ≡ done final)
unfolding redurceurl
redurceurl-Heres url mid small f r =
    let le = Ups-length r in
    let (final, h) = Heres-within (suc (length mid)) mid (omega arith) (omega arith) in
    (
      final,
      h,
      omega (arith, h.shorter),
      λ k lt. ap (then_here k) (up_loop-Star r small f k lt) ∙ h.run k (omega arith),
    )

up_loop-hangs :
    {url mid : Text}
    → Star Up url mid
    → length url ≤ 256
    → Stuck mid
    → (k : ℕ) → up_loop k url ≡ out_of_fuel
up_loop-hangs (stay {s}) small st k = up_loop-Stuck k s st
up_loop-hangs (step {s} {t} {u} x r) small st k =
    up_loop_hang s t small x (up_loop-hangs r (omega (arith, Up-shorter s t x)) st) k

-- If the steps of the first loop take a URL of at most 256 bytes to one that has a `/../` with no
-- slash before it, then no fuel is enough for `redurceurl`.
pub redurceurl-hangs :
    (url mid : Text)
    → length url ≤ 256
    → Star Up url mid
    → Stuck mid
    → (k : ℕ) → redurceurl k url ≡ out_of_fuel
unfolding redurceurl
redurceurl-hangs url mid small r st k = ap (then_here k) (up_loop-hangs r small st k)
