-- ===== src/Content/Reading.antt =====
-- Pages as pieces, and the text that is left of them.
use spiderframe.Base.{
  ℕ, zero, suc, ◌<◌, ◌≡◌, refl, ap, ◌∙◌, Bool, true, false, Option, none, some, [], ◌∷◌, ◌++◌,
  append-nil, arith, Text, bytes, length, drop, starts_with, ◌==◌, if◌then◌else◌, Bool-cases, inl,
  inr,
}
use spiderframe.Template.{done}
use spiderframe.Content.{
  skip_past, find_gt, plain_tag, tag_rest, skip_quote, content_round, content_loop,
  sf_pcre_getcontent,
}
use spiderframe.Content.Loop.{content_round-Progress, content_loop_step}

-- `after` is behind the first `close` in a text.
pub data Closes (close : Text) : Text → Text → Type 0 where
  now :
      {c : ℕ} {text after : Text}
      → starts_with (c ∷ text) close ≡ true
      → drop (length close) (c ∷ text) ≡ after
      → Closes close (c ∷ text) after
  later :
      {c : ℕ} {text after : Text}
      → starts_with (c ∷ text) close ≡ false
      → Closes close text after
      → Closes close (c ∷ text) after

skip_past-Closes :
    {close text after : Text} → Closes close text after → skip_past close text ≡ after
unfolding skip_past
skip_past-Closes (now h e) = rw h e
skip_past-Closes (later h s) = rw h (skip_past-Closes s)

-- No `>` in the text.
abbrev pub no_gt : Text → Bool
no_gt [] = true
no_gt (c ∷ s) = if c == b'>' then false else no_gt s

find_gt-append :
    (name after : Text) → no_gt name ≡ true → find_gt (name ++ b'>' ∷ after) ≡ some after
unfolding find_gt
find_gt-append [] after h = refl
find_gt-append (c ∷ name) after h = elim (Bool-cases (c == b'>')) [
  | inl e ↦ ground arith
  | inr e ↦ rw e (find_gt-append name after (rw e at h))
]

find_gt-none : (s : Text) → no_gt s ≡ true → find_gt s ≡ none
unfolding find_gt
find_gt-none [] h = refl
find_gt-none (c ∷ s) h = elim (Bool-cases (c == b'>')) [
  | inl e ↦ ground arith
  | inr e ↦ rw e (find_gt-none s (rw e at h))
]

-- Neither a script nor a style begins here.
abbrev pub IsPlain : Text → Type 0
IsPlain s = (starts_with s (bytes "<script") ≡ false) × (starts_with s (bytes "<style") ≡ false)

-- A page as the loop reads it, and the text that it keeps.
pub data Reads : Text → Text → Type 0 where
  end : Reads [] []
  -- a byte outside the tags
  byte : {c : ℕ} {s out : Text} → (c == b'<') ≡ false → Reads s out → Reads (c ∷ s) (c ∷ out)
  -- a tag that is no quotation, script or style
  tag :
      {s out : Text} (name after : Text)
      → starts_with (b'<' ∷ s) (bytes "<blockquote") ≡ false
      → IsPlain (b'<' ∷ s)
      → no_gt name ≡ true
      → b'<' ∷ s ≡ name ++ b'>' ∷ after
      → Reads after out
      → Reads (b'<' ∷ s) out
  -- a tag that does not end
  open_tag :
      {s : Text}
      → starts_with (b'<' ∷ s) (bytes "<blockquote") ≡ false
      → IsPlain (b'<' ∷ s)
      → no_gt (b'<' ∷ s) ≡ true
      → Reads (b'<' ∷ s) (b'<' ∷ s)
  script :
      {s after out : Text}
      → starts_with (b'<' ∷ s) (bytes "<blockquote") ≡ false
      → starts_with (b'<' ∷ s) (bytes "<script") ≡ true
      → Closes (bytes "</script>") (drop 6 s) after
      → Reads after out
      → Reads (b'<' ∷ s) out
  style :
      {s after out : Text}
      → starts_with (b'<' ∷ s) (bytes "<blockquote") ≡ false
      → starts_with (b'<' ∷ s) (bytes "<script") ≡ false
      → starts_with (b'<' ∷ s) (bytes "<style") ≡ true
      → Closes (bytes "</style>") (drop 5 s) after
      → Reads after out
      → Reads (b'<' ∷ s) out
  -- a quotation; the text behind it is dropped too, as far as the next `>`
  quote :
      {s text out : Text} (name after : Text)
      → starts_with (b'<' ∷ s) (bytes "<blockquote") ≡ true
      → Closes (bytes "</blockquote>") (drop 10 s) text
      → IsPlain text
      → no_gt name ≡ true
      → text ≡ name ++ b'>' ∷ after
      → Reads after out
      → Reads (b'<' ∷ s) out

no_quote : (s : Text) → starts_with s (bytes "<blockquote") ≡ false → skip_quote s ≡ s
unfolding skip_quote
no_quote s h = rw h

quoted :
    (s text : Text)
    → starts_with (b'<' ∷ s) (bytes "<blockquote") ≡ true
    → Closes (bytes "</blockquote>") (drop 10 s) text
    → skip_quote (b'<' ∷ s) ≡ text
unfolding skip_quote
quoted s text h cl = rw h (skip_past-Closes cl)

plain_rest : (s : Text) (o : Option Text) → IsPlain s → find_gt s ≡ o → tag_rest s ≡ plain_tag s o
unfolding tag_rest
plain_rest s o (a, b) f = rw (a, b) (ap (plain_tag s) f)

named_rest :
    (s name after : Text)
    → IsPlain s
    → no_gt name ≡ true
    → s ≡ name ++ b'>' ∷ after
    → tag_rest s ≡ ([], after)
named_rest s name after plain ng e =
    plain_rest s (some after) plain (ap find_gt e ∙ find_gt-append name after ng)

script_rest :
    (s after : Text)
    → starts_with (b'<' ∷ s) (bytes "<script") ≡ true
    → Closes (bytes "</script>") (drop 6 s) after
    → tag_rest (b'<' ∷ s) ≡ ([], after)
unfolding tag_rest
script_rest s after h cl = rw h (ap (λ (t : Text). ([], t)) (skip_past-Closes cl))

style_rest :
    (s after : Text)
    → starts_with (b'<' ∷ s) (bytes "<script") ≡ false
    → starts_with (b'<' ∷ s) (bytes "<style") ≡ true
    → Closes (bytes "</style>") (drop 5 s) after
    → tag_rest (b'<' ∷ s) ≡ ([], after)
unfolding tag_rest
style_rest s after ns h cl = rw (ns, h) (ap (λ (t : Text). ([], t)) (skip_past-Closes cl))

tag_round :
    (s q : Text) (round : Text × Text)
    → skip_quote (b'<' ∷ s) ≡ q
    → tag_rest q ≡ round
    → content_round b'<' s ≡ round
unfolding content_round
tag_round s q round e r = ap tag_rest e ∙ r

byte_round : (c : ℕ) (s : Text) → (c == b'<') ≡ false → content_round c s ≡ (c ∷ [], s)
unfolding content_round
byte_round c s h = ap (λ (b : Bool). if b then tag_rest (skip_quote (c ∷ s)) else (c ∷ [], s)) h

-- One round, with what the loop does from there.
round_then :
    (k c : ℕ) (p copied rest out : Text)
    → content_round c p ≡ (copied, rest)
    → length (c ∷ p) < suc k
    → (length rest < k → content_loop k rest ≡ done out)
    → content_loop (suc k) (c ∷ p) ≡ done (copied ++ out)
round_then k c p copied rest out r small next =
    let m = content_round-Progress c p in
    content_loop_step k c p copied rest out r
      (next (omega (arith, m.shorter, ap (λ (round : Text × Text). length round.1) r)))

content_loop-Reads :
    (k : ℕ) (s out : Text) → Reads s out → length s < k → content_loop k s ≡ done out
unfolding content_loop
content_loop-Reads zero s out r small = absurd (omega arith)
content_loop-Reads (suc k) _ _ end small = refl
content_loop-Reads (suc k) _ _ (byte {c} {s} {out} h r) small =
    round_then k c s (c ∷ []) s out (byte_round c s h) small (content_loop-Reads k s out r)
content_loop-Reads (suc k) _ _ (tag {s} {out} name after nq plain ng e r) small =
    round_then k b'<' s [] after out
      (tag_round s (b'<' ∷ s) ([], after) (no_quote (b'<' ∷ s) nq)
        (named_rest (b'<' ∷ s) name after plain ng e))
      small (content_loop-Reads k after out r)
content_loop-Reads (suc k) _ _ (open_tag {s} nq plain ng) small =
    round_then k b'<' s (b'<' ∷ s) [] []
      (tag_round s (b'<' ∷ s) (b'<' ∷ s, []) (no_quote (b'<' ∷ s) nq)
        (plain_rest (b'<' ∷ s) none plain (find_gt-none (b'<' ∷ s) ng)))
      small (content_loop-Reads k [] [] end)
    ∙ ap done (append-nil (b'<' ∷ s))
content_loop-Reads (suc k) _ _ (script {s} {after} {out} nq h cl r) small =
    round_then k b'<' s [] after out
      (tag_round s (b'<' ∷ s) ([], after) (no_quote (b'<' ∷ s) nq) (script_rest s after h cl)) small
      (content_loop-Reads k after out r)
content_loop-Reads (suc k) _ _ (style {s} {after} {out} nq ns h cl r) small =
    round_then k b'<' s [] after out
      (tag_round s (b'<' ∷ s) ([], after) (no_quote (b'<' ∷ s) nq) (style_rest s after ns h cl))
      small (content_loop-Reads k after out r)
content_loop-Reads (suc k) _ _ (quote {s} {text} {out} name after h cl plain ng e r) small =
    round_then k b'<' s [] after out
      (tag_round s text ([], after) (quoted s text h cl) (named_rest text name after plain ng e))
      small (content_loop-Reads k after out r)

-- A page that is not empty and reads as pieces is reduced to the text of the pieces: the bytes
-- outside tags, scripts, styles and quotations, and a last tag that does not end. The text between
-- the end of a quotation and the next `>` is lost.
pub getcontent-Reads :
    (c : ℕ) (p out : Text) → Reads (c ∷ p) out → sf_pcre_getcontent (c ∷ p) ≡ done out
unfolding sf_pcre_getcontent
getcontent-Reads c p out r = content_loop-Reads (suc (suc (length p))) (c ∷ p) out r (omega arith)
