-- ===== src/Tests/Pages.antt =====
-- Policies and links of small pages, with a search for a literal in place of pcre.
use spiderframe.Base.{
  ℕ, ◌+◌, ◌≤◌, ◌≡◌, refl, true, false, Option, none, some, List, [], ◌∷◌, ◌++◌, Text, bytes, length,
  arith,
}
use spiderframe.Base.Int.{pos}
use spiderframe.Base.Result.{Result, ok, undefined, Safely}
use spiderframe.Url.{find_sub}
use spiderframe.Url.Steps.{find_sub-length}
use spiderframe.Var.{sf_var_create}
use spiderframe.Template.{scan, next_part, find_close}
use spiderframe.Var.Expand.{sf_var_exp, var_visit}
use spiderframe.Json.{
  sf_json_print_buf, json_visit, Event, object_begin, object_end, array_begin, array_end, key,
  string,
}
use spiderframe.Policy.{Capture, Pcre, Policy}
use spiderframe.Perform.{
  select, advance, read_subject, repeat_loop, pcre_loop, sf_pcre_perform, match_round, on_url,
  which,
}
use spiderframe.Perform.Record.{
  Scrape, Spawn, begin_record, captures, run_triggers, run_newspiders, capture, sf_pcre_out_pattern,
  forget,
}
use spiderframe.Perform.Scan.{whole, scan_all, OnPage}
use spiderframe.Perform.Matches.{perform-scan_all}
use spiderframe.Perform.Output.{Printed, perform-IsNested}
use spiderframe.Perform.Overread.{perform_overread}

abbrev ending : Text → Option (Text × Text) → Option ℕ
ending re none = none
ending re (some (before, after)) = some (length before + length re)

-- The end of the first occurrence of a literal.
abbrev search_for : Text → Text → Option ℕ
search_for re t = ending re (find_sub re t)

abbrev same : ℕ → ℕ
same n = n

abbrev group : Text → ℕ → Text → Text → Option Text
group re m t name = some re

abbrev no_command : Text → Unit {0} → Option Text × Unit {0}
no_command cmd w = (none, w)

abbrev no_spider : Spawn (Unit {0})
no_spider conf_fn start fin s = undefined

abbrev title : Capture
title = record {
  capstr = some (bytes "t");
  out_pattern = some (bytes "($v)");
  json_out = some (bytes "($v)");
  store_as = some (bytes "$v");
  content_as = none;
}

abbrev ab : Pcre Text
ab = record {
  urlmatch = false;
  hdrmatch = false;
  movetoend = true;
  repeat = pos 3;
  re = some (bytes "ab");
  uniq = none;
  json_new = some (bytes "k");
  sfcap = title ∷ [];
  ns = [];
  trigger = [];
}

abbrev policy : Policy Text
policy = record { pcre_root = ab ∷ []; policy_range = [] }

abbrev start : Scrape (Unit {0})
start = record {
  env = λ name. none;
  events = [];
  buffered = [];
  patterns = some [];
  seen = [];
  world = tt;
}

ends_within : (re t : Text) (m : ℕ) → search_for re t ≡ some m → m ≤ length t
ends_within re t m h = by_place (find_sub re t) refl h
  where
    by_place : (o : Option (Text × Text)) → find_sub re t ≡ o → ending re o ≡ some m → m ≤ length t
    by_place none e h = ground arith
    by_place (some (before, after)) e h = ground (arith, find_sub-length re t before after e)

perform-scan_all_example :
    sf_pcre_perform search_for same group no_command no_spider policy
      (bytes "u")
      (whole (bytes "xabab"))
      (whole [])
      start
    ≡ scan_all search_for same group no_command no_spider policy.pcre_root (bytes "xabab") start
unfolding which OnPage
perform-scan_all_example =
    perform-scan_all search_for same group no_command no_spider ends_within policy (bytes "u")
      (bytes "xabab") (whole []) start (refl, tt) (omega arith)

perform-IsNested_example : Safely (Printed start) (
    sf_pcre_perform search_for same group no_command no_spider policy
      (bytes "u")
      (whole (bytes "xabab"))
      (whole [])
      start)
perform-IsNested_example =
    perform-IsNested search_for same group no_command no_spider (λ conf_fn start fin s. tt) policy
      (bytes "u") (whole (bytes "xabab")) (whole []) start

-- Another spider that changes nothing.
abbrev idle : Spawn (Unit {0})
idle conf_fn starturl fin s = ok s

-- A record is known by its title; it runs a command and starts a spider.
abbrev titled : Pcre Text
titled = record ab {
  uniq = some (bytes "($v)");
  ns = record { conf_fn = some (bytes "b.xml"); url_exp = some (bytes "($v)"); fin_fn = none } ∷ [];
  trigger = record { program = some (bytes "p"); args = some (bytes "($v)"); store_as = none } ∷ [];
}

abbrev captured : Scrape (Unit {0}) → Result (Scrape (Unit {0}))
captured s =
    captures (group (bytes "ab") 2 (bytes "ab")) titled.sfcap (begin_record titled.json_new s)

abbrev recorded : Scrape (Unit {0}) → Result (Scrape (Unit {0}))
recorded s = match_round search_for same group no_command idle titled (bytes "ab") (bytes "ab") 2 s

abbrev state_of : Result (Scrape (Unit {0})) → Scrape (Unit {0})
state_of (ok s) = s
state_of _ = start

abbrev first : Scrape (Unit {0})
first = state_of (recorded start)

-- A pattern on the URL without captures.
abbrev in_url : Pcre Text
in_url = record {
  urlmatch = true;
  hdrmatch = false;
  movetoend = true;
  repeat = pos 2;
  re = some (bytes "u");
  uniq = none;
  json_new = none;
  sfcap = [];
  ns = [];
  trigger = [];
}

abbrev url_policy : Policy Text
url_policy = record { pcre_root = in_url ∷ []; policy_range = [] }

round :
    match_round search_for same group no_command no_spider in_url (bytes "u") (bytes "u") 1 start
    ≡ ok start
unfolding match_round captures run_triggers run_newspiders
round = refl

found : search_for (bytes "u") (bytes "u") ≡ some 1
unfolding find_sub
found = refl

on_the_url : which in_url ≡ on_url
unfolding which
on_the_url = refl

perform_overread_example :
    sf_pcre_perform search_for same group no_command no_spider url_policy
      (bytes "u")
      (whole (bytes "xabab"))
      (whole [])
      start
    ≡ undefined
perform_overread_example =
    perform_overread search_for same group no_command no_spider url_policy in_url [] 0 (bytes "u")
      (bytes "u") (whole (bytes "xabab")) (whole []) 1 start start refl refl refl on_the_url refl
      found (omega arith) (omega arith) (omega arith) round

abbrev events_of : Result (Scrape (Unit {0})) → List Event
events_of (ok s) = s.events
events_of _ = []

abbrev one_record : List Event
one_record =
    object_begin
    ∷ key (bytes "k")
    ∷ array_begin
    ∷ object_begin
    ∷ key (bytes "v")
    ∷ string (bytes "ab")
    ∷ object_end
    ∷ array_end
    ∷ object_end
    ∷ []

-- Two records, and no third.
two_records :
    events_of (
      sf_pcre_perform search_for same group no_command no_spider policy
        (bytes "u")
        (whole (bytes "xabab"))
        (whole [])
        start)
    ≡ one_record ++ one_record
unfolding sf_pcre_perform pcre_loop repeat_loop which select advance read_subject match_round
    captures capture run_triggers run_newspiders find_sub sf_pcre_out_pattern forget sf_var_exp scan
    var_visit next_part find_close sf_json_print_buf json_visit sf_var_create
two_records = refl
