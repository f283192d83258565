-- ===== src/Tests/Texts.antt =====
-- Patterns, pages and URLs.
use spiderframe.Base.{
  ℕ, zero, suc, ap, text_eq, none, ◌+◌, ◌≤◌, ◌<◌, ◌≡◌, refl, Option, some, List, [], ◌∷◌, ◌++◌,
  tail, arith, Text, bytes, length, replicate, if◌then◌else◌,
}
use spiderframe.Template.{
  scan, next_part, find_close, done, overflow, out_of_fuel, Part, literal, place,
}
use spiderframe.Template.Parse.{Parses}
use spiderframe.Var.Expand.{
  literals, render, var_value, sf_var_exp, sf_var_exp-render, sf_var_exp-overflow,
}
use spiderframe.Proc.{rewrite_visit, sf_rewrite_exp}
use spiderframe.Proc.Rewrite.{fits, found_last, sf_rewrite_exp-fits}
use spiderframe.Json.{
  Event, object_begin, object_end, PrintBuf, printed, sf_json_print_buf_callback, sf_json_print_buf,
}
use spiderframe.Json.Buffer.{json_buf_size, callback-outside}
use spiderframe.Json.Fields.{field_events, print_all, sf_json_print_buf-events}
use spiderframe.Content.{content_loop, skip_past, find_gt, sf_pcre_getcontent}
use spiderframe.Content.Loop.{getcontent-fits}
use spiderframe.Content.Reading.{Reads, getcontent-Reads}
use spiderframe.Url.{find_sub, parent, redurceurl}
use spiderframe.Url.Reduce.{Heres, redurceurl-Heres, redurceurl-hangs}
use spiderframe.Url.Steps.{Up, up, Star, stay, step, Stuck, stuck}

-- The pattern `<(?n)>` with its sign.
abbrev pattern_of : ℕ → Text
pattern_of sign = b'<' ∷ b'(' ∷ sign ∷ b'n' ∷ b')' ∷ b'>' ∷ []

abbrev parts_of : ℕ → List Part
parts_of sign = literal b'<' ∷ place (sign ∷ b'n' ∷ []) ∷ literal b'>' ∷ []

var_Parses : Parses b'$' (pattern_of b'$') (parts_of b'$')
var_Parses =
    Parses.byte refl
      (Parses.named (bytes "$n") (bytes ">") refl refl refl (Parses.byte refl Parses.end))

group_Parses : Parses b'#' (pattern_of b'#') (parts_of b'#')
group_Parses =
    Parses.byte refl
      (Parses.named (bytes "#n") (bytes ">") refl refl refl (Parses.byte refl Parses.end))

-- Every variable is `v`.
abbrev all_v : Text → Option Text
all_v name = some (bytes "v")

abbrev count_part : Part → ℕ → Option ℕ
count_part p n = some (n + 1)

sf_var_exp-render_example : sf_var_exp all_v (pattern_of b'$') ≡ done (render all_v (parts_of b'$'))
unfolding render var_value
sf_var_exp-render_example =
    sf_var_exp-render all_v (pattern_of b'$') (parts_of b'$') var_Parses (omega arith)

sf_rewrite_exp-fits_example : sf_rewrite_exp all_v (some (pattern_of b'#')) (bytes "http://a") ≡ (
    if found_last (λ name. all_v (tail name)) (parts_of b'#')
    then fits (render (λ name. all_v (tail name)) (parts_of b'#'))
    else overflow)
sf_rewrite_exp-fits_example =
    sf_rewrite_exp-fits all_v (pattern_of b'#') (bytes "http://a") (parts_of b'#') group_Parses

-- Only the group `a` is there.
abbrev only_a : Text → Option Text
only_a name = if text_eq name (bytes "a") then some (bytes "1") else none

-- A missing group stands for itself, but not behind a group that was found.
missing_first : sf_rewrite_exp only_a (some (bytes "(#b)(#a)")) (bytes "u") ≡ done (bytes "(#b)1")
unfolding sf_rewrite_exp scan next_part find_close rewrite_visit var_value
missing_first = refl

missing_last : sf_rewrite_exp only_a (some (bytes "(#a)(#b)")) (bytes "u") ≡ overflow
unfolding sf_rewrite_exp scan next_part find_close rewrite_visit
missing_last = refl

-- Printing keeps the events.
abbrev keep : Event → List Event → List Event
keep e es = es ++ e ∷ []

sf_json_print_buf-events_example :
    sf_json_print_buf keep all_v (pattern_of b'$') []
    ≡ done
        (print_all keep (object_begin ∷ field_events all_v (parts_of b'$') ++ object_end ∷ []) [])
sf_json_print_buf-events_example =
    sf_json_print_buf-events keep all_v (pattern_of b'$') (parts_of b'$') [] var_Parses

many_bytes : (n : ℕ) → Parses b'$' (replicate n b'a') (replicate n (literal b'a'))
many_bytes zero = Parses.end
many_bytes (suc n) = Parses.byte refl (many_bytes n)

many_literals : (n : ℕ) → literals (replicate n (literal b'a')) ≡ n
unfolding literals
many_literals zero = refl
many_literals (suc n) = ap suc (many_literals n)

sf_var_exp-overflow_example : sf_var_exp all_v (replicate 131073 b'a') ≡ overflow
sf_var_exp-overflow_example =
    sf_var_exp-overflow all_v (replicate 131073 b'a') (replicate 131073 (literal b'a'))
      (many_bytes 131073) (omega (arith, many_literals 131073))

abbrev buf : PrintBuf
buf = record { len = 2; text = bytes "{}" }

abbrev full : PrintBuf
full = record { len = 131079; text = [] }

callback-outside_example :
    (buf' : PrintBuf) × (last : ℕ) × (sf_json_print_buf_callback full (bytes "}")
      ≡ printed buf' last)
    × (json_buf_size ≤ last)
callback-outside_example = callback-outside full (bytes "}") (omega arith) (omega arith)

-- `a<b>c`
abbrev page : Text
page = bytes "a<b>c"

page-Reads : Reads page (bytes "ac")
page-Reads =
    Reads.byte refl
      (Reads.tag (bytes "<b") (bytes "c") refl (refl, refl) refl refl (Reads.byte refl Reads.end))

getcontent-Reads_example : sf_pcre_getcontent page ≡ done (bytes "ac")
getcontent-Reads_example = getcontent-Reads b'a' (bytes "<b>c") (bytes "ac") page-Reads

getcontent-fits_example :
    (out : Text) × (sf_pcre_getcontent page ≡ done out) × (length out ≤ length page)
getcontent-fits_example = getcontent-fits b'a' (bytes "<b>c")

-- The word behind the quotation is lost.
lost_word : sf_pcre_getcontent (bytes "<blockquote>q</blockquote>lost<b>kept") ≡ done (bytes "kept")
unfolding sf_pcre_getcontent content_loop skip_past find_gt
lost_word = refl

abbrev dotted : Text
dotted = bytes "/a/../b/./c"

dotted-Up : Star Up dotted (bytes "/b/./c")
unfolding find_sub parent
dotted-Up = step (up (bytes "/a") (bytes "b/./c") (bytes "/") refl refl refl) stay

redurceurl-Heres_example :
    (final : Text) × Heres (bytes "/b/./c") final
    × (length final ≤ length dotted)
    × ((k : ℕ) → length dotted < k → redurceurl k dotted ≡ done final)
unfolding find_sub
redurceurl-Heres_example = redurceurl-Heres dotted (bytes "/b/./c") (omega arith) refl dotted-Up

-- The steps of a URL that climbs out of its host.
climbing-Star : Star Up (bytes "http://a/../../../x") (bytes "http:/../x")
unfolding find_sub parent
climbing-Star =
    step (up (bytes "http://a") (bytes "../../x") (bytes "http://") refl refl refl)
      (step (up (bytes "http:/") (bytes "../x") (bytes "http:/") refl refl refl) stay)

climbing-Stuck : Stuck (bytes "http:/../x")
unfolding find_sub parent
climbing-Stuck = stuck (bytes "http:") (bytes "x") refl refl

redurceurl-hangs_example : redurceurl 1000 (bytes "http://a/../../../x") ≡ out_of_fuel
redurceurl-hangs_example =
    redurceurl-hangs (bytes "http://a/../../../x") (bytes "http:/../x") (omega arith) climbing-Star
      climbing-Stuck 1000
