-- ===== src/Var/Expand.antt =====
-- `sf_var_exp`: a pattern with `($name)` written out into a buffer of SF_MAX_VAR_SIZE bytes.
use spiderframe.Base.{
  ℕ, suc, ◌+◌, ◌≤◌, ◌<◌, ◌≡◌, sym, ap, ◌∙◌, true, Option, none, some, List, [], ◌∷◌, ◌++◌,
  append_assoc, append-nil, arith, Text, length, length-append, ltb, if◌then◌else◌, lt→ltb,
}
use spiderframe.Template.{Outcome, done, overflow, Part, literal, place, unclosed, scan, visit_all}
use spiderframe.Template.Parse.{IsEnded, scan-IsEnded, Parses, scan-visit_all}

abbrev pub max_var_size : ℕ
max_var_size = 131072

-- `(name)` again, as it stood in the pattern.
abbrev pub parenthesised : Text → Text
parenthesised name = b'(' ∷ name ++ b')' ∷ []

unfoldable pub var_value : Text → Option Text → Text
var_value name none = parenthesised name
var_value name (some value) = value

-- What the parts stand for, with no buffer in sight.
unfoldable pub render : (Text → Option Text) → List Part → Text
render vars [] = []
render vars (literal c ∷ ps) = c ∷ render vars ps
render vars (place name ∷ ps) = var_value name (vars name) ++ render vars ps
render vars (unclosed s ∷ ps) = s ++ render vars ps

-- How many bytes are copied without a test.
unfoldable pub literals : List Part → ℕ
literals [] = 0
literals (literal c ∷ ps) = suc (literals ps)
literals (place name ∷ ps) = literals ps
literals (unclosed s ∷ ps) = length s + literals ps

module _ (cap : ℕ) (vars : Text → Option Text) where
  -- A copy that is skipped when it does not fit.
  abbrev pub put_if_fits : Text → Text → Text
  put_if_fits out s = if ltb (length out + length s) cap then out ++ s else out

  abbrev pub put_value : Text → Text → Option Text → Text
  put_value name out none = put_if_fits out (parenthesised name)
  put_value name out (some value) = put_if_fits out value

  -- A single byte and the rest behind an open parenthesis are copied without a test.
  unfoldable pub var_visit : Part → Text → Option Text
  var_visit (literal c) out = if ltb (length out) cap then some (out ++ c ∷ []) else none
  var_visit (place name) out = some (put_value name out (vars name))
  var_visit (unclosed s) out = if ltb (length out + length s) cap then some (out ++ s) else none

  put_value-fits :
      (name out : Text) (v : Option Text)
      → length out + length (var_value name v) < cap
      → put_value name out v ≡ out ++ var_value name v
  unfolding var_value
  put_value-fits name out none h = rw (lt→ltb _ _ h)
  put_value-fits name out (some v) h = rw (lt→ltb _ _ h)

  visit_all-render :
      (ps : List Part) (out : Text)
      → length out + length (render vars ps) < cap
      → visit_all b'$' var_visit ps out ≡ done (out ++ render vars ps)
  unfolding visit_all var_visit render
  visit_all-render [] out h = ap done (sym (append-nil out))
  visit_all-render (literal c ∷ ps) out h =
      let room : ltb (length out) cap ≡ true = lt→ltb _ _ (omega arith) in
      rw room (
        visit_all-render ps (out ++ c ∷ []) (omega (arith, length-append {0} out (c ∷ [])))
        ∙ ap done (append_assoc out (c ∷ []) (render vars ps)))
  visit_all-render (place name ∷ ps) out h =
      let v = var_value name (vars name) in
      let e = length-append {0} v (render vars ps) in
      rw (put_value-fits name out (vars name) (omega arith)) (
        visit_all-render ps (out ++ v) (omega (arith, length-append {0} out v))
        ∙ ap done (append_assoc out v (render vars ps)))
  visit_all-render (unclosed s ∷ ps) out h =
      let e = length-append {0} s (render vars ps) in
      let room : ltb (length out + length s) cap ≡ true = lt→ltb _ _ (omega arith) in
      rw room (
        visit_all-render ps (out ++ s) (omega (arith, length-append {0} out s))
        ∙ ap done (append_assoc out s (render vars ps)))

  length-put_if_fits :
      (out t : Text)
      → length out ≤ cap
      → (length out ≤ length (put_if_fits out t)) × (length (put_if_fits out t) ≤ cap)
  length-put_if_fits out t h = ground (arith, length-append {0} out t)

  length-put_value :
      (name out : Text) (v : Option Text)
      → length out ≤ cap
      → (length out ≤ length (put_value name out v)) × (length (put_value name out v) ≤ cap)
  length-put_value name out none h = length-put_if_fits out (parenthesised name) h
  length-put_value name out (some v) h = length-put_if_fits out v h

  visit_all-overflow :
      (ps : List Part) (out : Text)
      → length out ≤ cap
      → cap < length out + literals ps
      → visit_all b'$' var_visit ps out ≡ overflow
  unfolding visit_all var_visit literals
  visit_all-overflow [] out h more = absurd (omega arith)
  visit_all-overflow (literal c ∷ ps) out h more =
      ground (arith, visit_all-overflow ps (out ++ c ∷ []), length-append {0} out (c ∷ []))
  visit_all-overflow (place name ∷ ps) out h more =
      let (up, top) = length-put_value name out (vars name) h in
      visit_all-overflow ps (put_value name out (vars name)) top (omega arith)
  visit_all-overflow (unclosed s ∷ ps) out h more =
      ground (arith, visit_all-overflow ps (out ++ s), length-append {0} out s)

-- The buffer that is returned, from the variables as a map.
unfoldable pub sf_var_exp : (Text → Option Text) → Text → Outcome Text
sf_var_exp vars varexp = scan b'$' (var_visit max_var_size vars) (suc (length varexp)) varexp []

-- For a pattern that reads as parts, if the text that it stands for is shorter than the buffer,
-- sf_var_exp returns that text: each placeholder is its variable's value, or itself if there is no
-- such variable.
pub sf_var_exp-render :
    (vars : Text → Option Text) (e : Text) (ps : List Part)
    → Parses b'$' e ps
    → length (render vars ps) < max_var_size
    → sf_var_exp vars e ≡ done (render vars ps)
unfolding sf_var_exp
sf_var_exp-render vars e ps p h =
    scan-visit_all b'$' (var_visit max_var_size vars) (suc (length e)) [] p (omega arith)
    ∙ visit_all-render max_var_size vars ps [] (omega arith)

-- For a pattern that reads as parts, if it has more bytes outside placeholders than the buffer,
-- sf_var_exp writes past the end of the buffer, whatever the variables are.
pub sf_var_exp-overflow :
    (vars : Text → Option Text) (e : Text) (ps : List Part)
    → Parses b'$' e ps
    → max_var_size < literals ps
    → sf_var_exp vars e ≡ overflow
unfolding sf_var_exp
sf_var_exp-overflow vars e ps p h =
    scan-visit_all b'$' (var_visit max_var_size vars) (suc (length e)) [] p (omega arith)
    ∙ visit_all-overflow max_var_size vars ps [] (omega arith) (omega arith)

-- The fuel is enough for every pattern.
pub sf_var_exp-IsEnded : (vars : Text → Option Text) (e : Text) → IsEnded (sf_var_exp vars e)
unfolding sf_var_exp
sf_var_exp-IsEnded vars e = scan-IsEnded b'$' (var_visit max_var_size vars) e []
