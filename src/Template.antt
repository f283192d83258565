-- ===== src/Template.antt =====
-- The loop that `sf_var_exp`, `sf_rewrite_exp` and `sf_json_print_buf` share: it walks a pattern
-- with placeholders `($name)` or `(#name)`. The three copies differ in the sign behind the
-- parenthesis and in what they do with a part, `visit`.
pub mod Parse
use spiderframe.Base.{
  ℕ, zero, suc, ◌+◌, Bool, true, false, ◌&&◌, Option, none, some, List, [], ◌∷◌, ◌++◌, Text, length,
  starts_with, ◌==◌, if◌then◌else◌,
}
use mathlib.Core.Option

pub data Outcome (A : Type 0) : Type 0 where
  done : A → Outcome A
  overflow : Outcome A
  out_of_fuel : Outcome A

-- A part of a pattern: a byte that stands for itself, the name in a placeholder (the sign
-- included), or all that follows from an opening that nothing closes.
pub data Part : Type 0 where
  literal : ℕ → Part
  place : Text → Part
  unclosed : Text → Part

abbrev pub cons_first : ℕ → Text × Text → Text × Text
cons_first c (name, after) = (c ∷ name, after)

-- `while (*p && *p != ')') p++`: what stands before the first `)`, and behind it.
unfoldable pub find_close : Text → Option (Text × Text)
find_close [] = none
find_close (c ∷ p) = if c == b')' then some ([], p) else Option.map (cons_first c) (find_close p)

abbrev pub closed_at : Text → Option (Text × Text) → Part × Text
closed_at c none = (unclosed c, [])
closed_at c (some (name, after)) = (place name, after)

-- The part at the head of `c ∷ rest`, and what follows it.
unfoldable pub next_part : ℕ → ℕ → Text → Part × Text
unfolding find_close
next_part sign c rest =
    if c == b'(' && starts_with rest (sign ∷ [])
    then closed_at (c ∷ rest) (find_close rest)
    else (literal c, rest)

abbrev pub go_on : {S : Type 0} → (S → Outcome S) → Option S → Outcome S
go_on f none = overflow
go_on f (some s) = f s

module _ {S : Type 0} (sign : ℕ) (visit : Part → S → Option S) where
  -- `none` from `visit` is a write behind the end of the buffer.
  unfoldable pub scan : ℕ → Text → S → Outcome S
  scan zero c s = out_of_fuel
  scan (suc k) [] s = done s
  scan (suc k) (c ∷ rest) s =
      let step = next_part sign c rest in go_on (scan k step.1) (visit step.0 s)

  -- The same over the parts.
  unfoldable pub visit_all : List Part → S → Outcome S
  visit_all [] s = done s
  visit_all (p ∷ ps) s = go_on (visit_all ps) (visit p s)
