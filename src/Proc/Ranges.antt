-- ===== src/Proc/Ranges.antt =====
-- Which URLs are followed.
use spiderframe.Base.{
  ◌∙◌, ℕ, ◌+◌, ◌<◌, ◌≡◌, refl, ap, Bool, true, false, Option, none, some, List, [], ◌∷◌, arith,
  Text, length, ltb, if◌then◌else◌, Option-cases, inl, inr, lt→ltb, ◌⊎◌,
}
use spiderframe.Template.{Outcome, done, overflow}
use spiderframe.Link.{Ptr, Links, ok}
use spiderframe.Proc.{
  UrlStore, insert_rewritten, sf_proc_insert_url, sf_proc_insert_url_withrange, Range,
  sf_rewrite_exp, exec, black_loop, return_text, groups_of, as_string, or_overflow, white_loop,
  sf_proc_url_rewrite_range, max_rewrite,
}

module _ {R M : Type 0} (pcre_exec : R → Text → Option M) (named : R → M → Text → Option Text) where
  -- A pattern matches, or there is none, or it does not match.
  pub data Hits (url : Text) : Option R → Type 0 where
    hits : (re : R) (m : M) → pcre_exec re url ≡ some m → Hits url (some re)

  pub data Misses (url : Text) : Option R → Type 0 where
    no_pattern : Misses url none
    misses : (re : R) → pcre_exec re url ≡ none → Misses url (some re)

  -- One of the ranges, or each of them, has this.
  pub data Some (P : Range R → Type 0) : List (Range R) → Type 0 where
    here : (r : Range R) (range : List (Range R)) → P r → Some P (r ∷ range)
    there : (r : Range R) (range : List (Range R)) → Some P range → Some P (r ∷ range)

  unfoldable pub Every : (Range R → Type 0) → List (Range R) → Type 0
  Every P [] = Unit
  Every P (r ∷ range) = P r × Every P range

  -- Whether the ranges accept a URL: all URLs if there is none, none that a pattern of the black list
  -- matches, and of the others those that a pattern of the white list matches.
  pub data Accepts (url : Text) : List (Range R) → Bool → Type 0 where
    no_range : Accepts url [] true
    blacklisted :
        (range : List (Range R))
        → Some (λ r. Hits url r.url_black_re) range
        → Accepts url range false
    whitelisted :
        (range : List (Range R))
        → Every (λ r. Misses url r.url_black_re) range
        → Some (λ r. Hits url r.url_white_re) range
        → Accepts url range true
    unlisted :
        (r : Range R) (range : List (Range R))
        → Every (λ r. Misses url r.url_black_re) (r ∷ range)
        → Every (λ r. Misses url r.url_white_re) (r ∷ range)
        → Accepts url (r ∷ range) false

  exec-cases : (re : Option R) (url : Text) → Hits url re ⊎ Misses url re
  exec-cases none url = inr no_pattern
  exec-cases (some re) url = elim (Option-cases (pcre_exec re url)) [
    | inl e ↦ inr (misses re e)
    | inr (m, e) ↦ inl (hits re m e)
  ]

  Hits-exec :
      (url : Text) (re : Option R) → Hits url re → (m : M) × (exec pcre_exec re url ≡ some m)
  unfolding exec
  Hits-exec url re (hits r m e) = (m, e)

  Misses-exec : (url : Text) (re : Option R) → Misses url re → exec pcre_exec re url ≡ none
  unfolding exec
  Misses-exec url re no_pattern = refl
  Misses-exec url re (misses r e) = e

  black-cases :
      (url : Text) (range : List (Range R))
      → (Some (λ r. Hits url r.url_black_re) range × (black_loop pcre_exec url range ≡ true))
        ⊎ (Every (λ r. Misses url r.url_black_re) range × (black_loop pcre_exec url range ≡ false))
  unfolding black_loop Every
  black-cases url [] = inr (tt, refl)
  black-cases url (r ∷ range) = elim (exec-cases r.url_black_re url) [
    | inl h ↦ let (m, e) = Hits-exec url r.url_black_re h in inl (here r range h, rw e refl)
    | inr h ↦
        let e = Misses-exec url r.url_black_re h in
        elim (black-cases url range) [
          | inl (some_of, b) ↦ inl (there r range some_of, rw e b)
          | inr (all, b) ↦ inr ((h, all), rw e b)
        ]
  ]

  -- No range has a rewriting.
  abbrev pub IsPlain : List (Range R) → Type 0
  IsPlain [] = Unit
  IsPlain (r ∷ range) = (r.url_rewrite ≡ none) × IsPlain range

  plain_exp :
      (group : Text → Option Text) (url : Text)
      → length url < max_rewrite
      → sf_rewrite_exp group none url ≡ done url
  unfolding sf_rewrite_exp
  plain_exp group url small =
      let e : ltb (0 + length url) max_rewrite ≡ true = lt→ltb _ _ (omega arith) in
      let e' : ltb (length url) max_rewrite ≡ true = lt→ltb _ _ small in
      ap
        (λ b.
          as_string (or_overflow (if b then some (record { out = url; freed = false }) else none)))
        e
      ∙ ap (λ b. if b then done url else overflow) e'

  white-cases :
      (url : Text) (range : List (Range R))
      → IsPlain range
      → length url < max_rewrite
      → (Some (λ r. Hits url r.url_white_re) range
          × (white_loop pcre_exec named url range ≡ done (some url)))
        ⊎ (Every (λ r. Misses url r.url_white_re) range
            × (white_loop pcre_exec named url range ≡ done none))
  unfolding white_loop Every
  white-cases url [] plain small = inr (tt, refl)
  white-cases url (r ∷ range) plain small = elim (exec-cases r.url_white_re url) [
    | inl h ↦
        let (m, e) = Hits-exec url r.url_white_re h in
        inl (
          here r range h,
          rw (e, plain.0)
              (ap return_text (plain_exp (groups_of pcre_exec named r.url_white_re m) url small)),
        )
    | inr h ↦
        let e = Misses-exec url r.url_white_re h in
        elim (white-cases url range plain.1 small) [
          | inl (some_of, w) ↦ inl (there r range some_of, rw e w)
          | inr (all, w) ↦ inr ((h, all), rw e w)
        ]
  ]

  abbrev pub followed : Bool → Text → Option Text
  followed b url = if b then some url else none

  rewrite_range-Accepts :
      (url : Text) (range : List (Range R))
      → IsPlain range
      → length url < max_rewrite
      → (b : Bool) × Accepts url range b
        × (sf_proc_url_rewrite_range pcre_exec named url range ≡ done (followed b url))
  unfolding sf_proc_url_rewrite_range
  rewrite_range-Accepts url [] plain small = (true, no_range, refl)
  rewrite_range-Accepts url (r ∷ range) plain small = elim (black-cases url (r ∷ range)) [
    | inl (some_of, e) ↦ (false, blacklisted (r ∷ range) some_of, rw e refl)
    | inr (clear, e) ↦ elim (white-cases url (r ∷ range) plain small) [
      | inl (some_of, w) ↦ (true, whitelisted (r ∷ range) clear some_of, rw e w)
      | inr (all, w) ↦ (false, unlisted r range clear all, rw e w)
    ]
  ]

  insert_followed :
      (b : Bool) (st : UrlStore) (url : Text) (level : ℕ) (new : Option Ptr) (links : Links)
      → insert_rewritten st level new (done (followed b url)) links
        ≡ (if b then sf_proc_insert_url st url level new links else ok st links)
  insert_followed true st url level new links = refl
  insert_followed false st url level new links = refl

  -- Without rewritings, on a URL shorter than the buffer, sf_proc_insert_url_withrange inserts the URL
  -- if the ranges accept it, and otherwise does nothing: they accept every URL if there is no range;
  -- else none that a black pattern of any of them matches, and of the others exactly those that a
  -- white pattern of one of them matches.
  pub insert_withrange-Accepts :
      (range : List (Range R)) (st : UrlStore) (url : Text) (level : ℕ) (new : Option Ptr)
      (links : Links)
      → IsPlain range
      → length url < max_rewrite
      → (b : Bool) × Accepts url range b
        × (sf_proc_insert_url_withrange pcre_exec named range st url level new links
            ≡ (if b then sf_proc_insert_url st url level new links else ok st links))
  unfolding sf_proc_insert_url_withrange
  insert_withrange-Accepts range st url level new links plain small =
      let (b, accepts, run) = rewrite_range-Accepts url range plain small in
      (
        b,
        accepts,
        ap (λ (o : Outcome (Option Text)). insert_rewritten st level new o links) run
            ∙ insert_followed b st url level new links,
      )
