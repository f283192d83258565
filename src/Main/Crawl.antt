-- ===== src/Main/Crawl.antt =====
-- `sf_proc_start_spider` of main.c: the loop of one spider. What the other parts do to the state `S`
-- of the process, beyond the number of lines read and the flags of the spiders, is a record of
-- operations. A `sleep` changes nothing here. The counter of lines stays within `int`.
use spiderframe.Base.{
  ℕ, zero, suc, Bool, true, false, not, ◌&&◌, ◌||◌, Option, none, some, List, [], ◌∷◌, ◌++◌, Text,
  bytes, length, ltb, leb, drop, set, ◌==◌, if◌then◌else◌,
}
use spiderframe.Base.Int.{ℤ, pos_part, ltb_ℤ, suc_ℤ, abs, is_zero}
use spiderframe.Base.Result.{Result, ok, undefined, out_of_fuel, ◌>>=◌}
use spiderframe.Json.{Event, object_begin, object_end, array_begin, array_end, key, string}
use spiderframe.Proc.{sf_proc_url_match_range}
use spiderframe.Policy.{Policy}
use spiderframe.Confset.{sf_do_checkpoint}
use spiderframe.Conf.{Conf}

-- What fscanf reads of a line `%d|%s`: the end of the file, nothing, the number, or both.
pub data Scanned : Type 0 where
  at_eof nothing : Scanned
  number : ℤ → Scanned
  both : ℤ → Text → Scanned

-- The counter `line`, the `eof` of the spiders in `spider_list`, and the rest.
pub record Crawl (S : Type 0) : Type 0 where
  pub line : ℤ
  pub eof : List Bool
  pub rest : S

-- The variables `level` and `url`, which keep their values from round to round.
pub record Vars : Type 0 where
  pub level : ℤ
  pub url : Text

pub record Parts (R S : Type 0) : Type 0 where
  pub fscanf : S → Scanned × S
  pub create_pool : S → Bool × S
  pub suffix : Text → S → Result Text
  pub curl : Text → S → Bool × S
  pub get_href : ℤ → Text → Crawl S → Result (Crawl S)
  pub perform : Policy R → Text → Crawl S → Result (Crawl S)
  pub print : Event → S → S
  pub save_chkpoint : ℤ → S → S
  pub unparsed : S → List (ℤ × Text)

-- `char url[2048]`
abbrev pub url_size : ℕ
url_size = 2048

abbrev pub fits : Text → Result Text
fits url = if ltb (length url) url_size then ok url else undefined

-- `len` bytes of a literal, whose NUL is its last.
abbrev pub read_literal : Text → ℕ → Result Text
read_literal t len = if leb len (suc (length t)) then ok t else undefined

-- `sf_all_spiders_eof`
unfoldable pub sf_all_spiders_eof : List Bool → Bool
sf_all_spiders_eof [] = true
sf_all_spiders_eof (eof ∷ rest) = eof && sf_all_spiders_eof rest

module _ {R S M : Type 0} (pcre_exec : R → Text → Option M) (parts : Parts R S) (conf : Conf R)
    (starturl : Option Text) (self : ℕ) where
  abbrev pub set_eof : Bool → Crawl S → Crawl S
  set_eof b c = record c { eof = set c.eof self b }

  abbrev pub with_rest : S → Crawl S → Crawl S
  with_rest s c = record c { rest = s }

  unfoldable pub print_all : List Event → Crawl S → Crawl S
  print_all [] c = c
  print_all (e ∷ es) c = print_all es (with_rest (parts.print e c.rest) c)

  -- The variables behind a scan, or `none` at the end of the file.
  abbrev pub scanned : Vars → Crawl S → Scanned × S → Result (Option Vars × Crawl S)
  scanned v c (at_eof, s) = ok (none, with_rest s c)
  scanned v c (nothing, s) = ok (some v, with_rest s c)
  scanned v c (number n, s) =
      ok (some (record v { level = n }), record c { line = suc_ℤ c.line; rest = s })
  scanned v c (both n u, s) = do
    url ← fits u
    ok (some (record { level = n; url = url }), record c { line = suc_ℤ c.line; rest = s })

  unfoldable pub sf_global_scan_url : Vars → Crawl S → Result (Option Vars × Crawl S)
  sf_global_scan_url v c = scanned v c (parts.fscanf c.rest)

  abbrev pub read_url : Option Text → Vars → Crawl S → Result (Option Vars × Crawl S)
  read_url none v c = sf_global_scan_url v c
  read_url (some start) v c = do url ← fits start; ok (some (record v { url = url }), c)

  abbrev pub with_suffix : Option Text → Vars → S → Result Vars
  with_suffix none v s = ok v
  with_suffix (some e) v s = do
    t ← parts.suffix e s
    url ← fits (v.url ++ t)
    ok (record v { url = url })

  -- The record of a URL that was downloaded, or was not; `url_key` is the key of the URL in it.
  abbrev pub feedback_events : Text → Text → Text → List Event
  feedback_events name url_key url =
      object_begin
      ∷ key name
      ∷ array_begin
      ∷ object_begin
      ∷ key url_key
      ∷ string url
      ∷ object_end
      ∷ array_end
      ∷ object_end
      ∷ []

  -- What would be printed for a failure, by what the key of the URL is read as.
  unfoldable pub print_failure : Text → Text → Crawl S → Crawl S
  print_failure url_key url c = print_all (feedback_events (bytes "fail_url") url_key url) c

  -- The key "url" is read with the length of "fail_url".
  abbrev pub report_failure : Text → Crawl S → Result (Crawl S)
  report_failure url c = do
    url_key ← read_literal (bytes "url") (length (bytes "fail_url"))
    ok (print_failure url_key url c)

  abbrev pub report_success : Text → Crawl S → Crawl S
  report_success url c =
      if is_zero conf.url_feedback
      then c
      else print_all (feedback_events (bytes "success_url") (bytes "url") url) c

  abbrev pub perform_if : Bool → Policy R → Text → Crawl S → Result (Crawl S)
  perform_if true p url c = parts.perform p url c
  perform_if false p url c = ok c

  unfoldable pub policy_loop : List (Policy R) → Text → Crawl S → Result (Crawl S)
  policy_loop [] url c = ok c
  policy_loop (p ∷ ps) url c = do
    c' ← perform_if (sf_proc_url_match_range pcre_exec url p.policy_range) p url c
    policy_loop ps url c'

  -- `level > conf->url_level || line >= conf->url_count`
  abbrev pub is_done : Vars → Crawl S → Bool
  is_done v c = ltb_ℤ conf.url_level v.level || not (ltb_ℤ c.line conf.url_count)

  abbrev pub checkpoint : Crawl S → Crawl S
  checkpoint c =
      if sf_do_checkpoint (abs c.line) == 0
      then c
      else with_rest (parts.save_chkpoint c.line c.rest) c

  abbrev pub go_on :
      (Vars → Crawl S → Result (Vars × Crawl S)) → Vars → Crawl S → Result (Vars × Crawl S)
  go_on next v c = if is_done v c then ok (v, set_eof true c) else next v (checkpoint c)

  -- The page of a URL that was downloaded.
  unfoldable pub page : Text → Vars → Crawl S → Result (Crawl S)
  page backup_url v c = do
    c' ← parts.get_href (suc_ℤ v.level) v.url (report_success backup_url c)
    policy_loop conf.policy v.url c'

  abbrev pub downloaded :
      (Vars → Crawl S → Result (Vars × Crawl S))
      → Text
      → Vars
      → Crawl S
      → Bool
      → Result (Vars × Crawl S)
  downloaded next backup_url v c got =
      if not got && not (is_zero conf.url_feedback)
      then (do c' ← report_failure backup_url c; ok (v, c'))
      else (do c' ← page backup_url v c; go_on next v c')

  abbrev pub in_pool :
      (Vars → Crawl S → Result (Vars × Crawl S))
      → Vars
      → Crawl S
      → Bool × S
      → Result (Vars × Crawl S)
  in_pool next v c (false, s) = ok (v, with_rest s c)
  in_pool next v c (true, s) = do
    let c1 = set_eof false (with_rest s c)
    v' ← with_suffix conf.url_suffix v c1.rest
    let (got, s2) = parts.curl v'.url c1.rest
    downloaded next v.url v' (with_rest s2 c1) got

  abbrev pub on_url :
      (Vars → Crawl S → Result (Vars × Crawl S))
      → Vars
      → Option Vars × Crawl S
      → Result (Vars × Crawl S)
  on_url next v (none, c) = ok (v, set_eof true c)
  on_url next v (some v', c) = in_pool next v' c (parts.create_pool c.rest)

  -- The inner loop, up to a `break`.
  unfoldable pub url_loop : ℕ → Vars → Crawl S → Result (Vars × Crawl S)
  url_loop zero v c = out_of_fuel
  url_loop (suc k) v c = do r ← read_url starturl v c; on_url (url_loop k) v r

  abbrev pub unparse_lines : List (ℤ × Text) → List Event
  unparse_lines [] = []
  unparse_lines ((level, url) ∷ lines) =
      object_begin ∷ key (bytes "url") ∷ string url ∷ object_end ∷ unparse_lines lines

  -- `sf_proc_output_unparse`: the lines of the file behind the first `line`, each of which matches.
  unfoldable pub sf_proc_output_unparse : ℕ → Crawl S → Crawl S
  sf_proc_output_unparse line c =
      print_all
        (object_begin
            ∷ key (bytes "unparse_url")
            ∷ array_begin
            ∷ unparse_lines (drop line (parts.unparsed c.rest))
          ++ array_end ∷ object_end ∷ [])
        c

  abbrev pub is_none : Option Text → Bool
  is_none none = true
  is_none (some t) = false

  abbrev pub leave : (Vars → Crawl S → Result (Crawl S)) → Vars × Crawl S → Result (Crawl S)
  leave next (v, c) =
      if is_done v c
      then ok (
          if is_none starturl && not (is_zero conf.url_feedback)
          then sf_proc_output_unparse (pos_part c.line) c
          else c)
      else if sf_all_spiders_eof c.eof
      then ok c
      else next v c

  unfoldable pub spider_loop : ℕ → ℕ → Vars → Crawl S → Result (Crawl S)
  spider_loop fuel zero v c = out_of_fuel
  spider_loop fuel (suc k) v c = do r ← url_loop fuel v c; leave (spider_loop fuel k) r

  -- `v` is what the variables hold before they are written.
  unfoldable pub sf_proc_start_spider : ℕ → Vars → Crawl S → Result (Crawl S)
  sf_proc_start_spider fuel v c = do
    c' ← spider_loop fuel fuel v (print_all (array_begin ∷ []) c)
    ok (print_all (array_end ∷ []) c')
