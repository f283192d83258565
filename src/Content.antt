-- ===== src/Content.antt =====
-- `sf_pcre_getcontent` of sf_pcre.c: a page without its tags, scripts and styles.
pub mod Loop
pub mod Reading
use spiderframe.Base.{
  ℕ, zero, suc, Bool, true, false, Option, none, some, List, [], ◌∷◌, ◌++◌, Text, bytes, length,
  drop, starts_with, ◌==◌, if◌then◌else◌,
}
use spiderframe.Template.{Outcome, done, overflow, out_of_fuel}

-- `while (*p != '\0')`: behind the first occurrence of `close`, or at the end.
unfoldable pub skip_past : Text → Text → Text
skip_past close [] = []
skip_past close (c ∷ p) =
    if starts_with (c ∷ p) close then drop (length close) (c ∷ p) else skip_past close p

-- `while (*pr != '>' && *pr != '\0') pr++`: what is behind the first `>`.
unfoldable pub find_gt : Text → Option Text
find_gt [] = none
find_gt (c ∷ p) = if c == b'>' then some p else find_gt p

-- The last branch: a tag is skipped, a tag without its end is copied with all that follows. The
-- first component is what is copied, the second where the loop goes on.
abbrev pub plain_tag : Text → Option Text → Text × Text
plain_tag p none = (p, [])
plain_tag p (some rest) = ([], rest)

-- From the test for `<script` on, which has no `else` before it.
unfoldable pub tag_rest : Text → Text × Text
tag_rest p =
    if starts_with p (bytes "<script")
    then ([], skip_past (bytes "</script>") (drop 7 p))
    else if starts_with p (bytes "<style")
    then ([], skip_past (bytes "</style>") (drop 6 p))
    else plain_tag p (find_gt p)

unfoldable pub skip_quote : Text → Text
skip_quote p =
    if starts_with p (bytes "<blockquote") then skip_past (bytes "</blockquote>") (drop 11 p) else p

unfoldable pub content_round : ℕ → Text → Text × Text
unfolding tag_rest skip_quote
content_round c p = if c == b'<' then tag_rest (skip_quote (c ∷ p)) else (c ∷ [], p)

abbrev pub prepend : Text → Outcome Text → Outcome Text
prepend s (done out) = done (s ++ out)
prepend s overflow = overflow
prepend s out_of_fuel = out_of_fuel

unfoldable pub content_loop : ℕ → Text → Outcome Text
unfolding content_round
content_loop zero s = out_of_fuel
content_loop (suc k) [] = done []
content_loop (suc k) (c ∷ p) =
    let round = content_round c p in prepend round.0 (content_loop k round.1)

-- The loop is a `do`: on an empty string it copies the NUL and reads the byte behind it.
unfoldable pub sf_pcre_getcontent : Text → Outcome Text
sf_pcre_getcontent [] = overflow
sf_pcre_getcontent (c ∷ outstr) = content_loop (suc (suc (length outstr))) (c ∷ outstr)
