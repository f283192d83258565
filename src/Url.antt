-- ===== src/Url.antt =====
-- `redurceurl` of sf_pcre.c: `/../` and `/./` are taken out of a URL in place.
pub mod Steps
pub mod Reduce
use spiderframe.Base.{
  ℕ, zero, suc, Bool, true, false, Option, none, some, List, [], ◌∷◌, ◌++◌, Text, bytes, length,
  leb, drop, starts_with, ◌==◌, if◌then◌else◌,
}
use mathlib.Core.Option
use spiderframe.Template.{Outcome, done, overflow, out_of_fuel}

abbrev pub cons_before : ℕ → Text × Text → Text × Text
cons_before c (before, after) = (c ∷ before, after)

-- `strstr(url, needle)`: what stands before the first occurrence, and behind it.
unfoldable pub find_sub : Text → Text → Option (Text × Text)
find_sub needle [] = if starts_with [] needle then some ([], []) else none
find_sub needle (c ∷ s) =
    if starts_with (c ∷ s) needle
    then some ([], drop (length needle) (c ∷ s))
    else Option.map (cons_before c) (find_sub needle s)

abbrev pub or_slash : ℕ → Option Text → Option Text
or_slash c (some base) = some (c ∷ base)
or_slash c none = if c == b'/' then some (c ∷ []) else none

-- `while (c-- != url) if (*c == '/')`: the text up to its last slash, if it has one.
unfoldable pub parent : Text → Option Text
parent [] = none
parent (c ∷ s) = or_slash c (parent s)

-- `char temp[255]`: a copy of 255 bytes and its NUL does not fit.
abbrev pub temp_size : ℕ
temp_size = 255

abbrev pub up_back : (Text → Outcome Text) → Text → Text → Option Text → Outcome Text
up_back next url after none = next url
up_back next url after (some base) =
    if leb temp_size (length after) then overflow else next (base ++ after)

abbrev pub up_step : (Text → Outcome Text) → Text → Option (Text × Text) → Outcome Text
up_step next url none = done url
up_step next url (some (before, after)) = up_back next url after (parent before)

-- The loop on `/../`: where no slash stands before it, the URL stays as it was.
unfoldable pub up_loop : ℕ → Text → Outcome Text
up_loop zero url = out_of_fuel
up_loop (suc k) url = up_step (up_loop k) url (find_sub (bytes "/../") url)

abbrev pub here_step : (Text → Outcome Text) → Text → Option (Text × Text) → Outcome Text
here_step next url none = done url
here_step next url (some (before, after)) =
    if leb temp_size (suc (length after)) then overflow else next (before ++ b'/' ∷ after)

-- The loop on `/./`.
unfoldable pub here_loop : ℕ → Text → Outcome Text
here_loop zero url = out_of_fuel
here_loop (suc k) url = here_step (here_loop k) url (find_sub (bytes "/./") url)

abbrev pub then_here : ℕ → Outcome Text → Outcome Text
then_here k (done url) = here_loop k url
then_here k overflow = overflow
then_here k out_of_fuel = out_of_fuel

unfoldable pub redurceurl : ℕ → Text → Outcome Text
redurceurl k url = then_here k (up_loop k url)
