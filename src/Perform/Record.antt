-- ===== src/Perform/Record.antt =====
-- What `sf_pcre_perform` does with one record: the captures of a match, the test for a duplicate,
-- the triggers and the new spiders.
use spiderframe.Base.{
  ◌-◌, Bool, true, false, ◌||◌, Option, none, some, List, [], ◌∷◌, ◌++◌, Text, bytes, take, text_eq,
  if◌then◌else◌,
}
use spiderframe.Base.Result.{Result, ok, undefined, out_of_fuel, ◌>>=◌}
use spiderframe.Template.{Outcome, done, overflow}
use spiderframe.Var.{sf_var_create}
use spiderframe.Var.Expand.{max_var_size, sf_var_exp}
use spiderframe.Content.{sf_pcre_getcontent}
use spiderframe.Json.{
  Event, object_begin, object_end, array_begin, array_end, key, sf_json_print_buf,
}
use spiderframe.Policy.{Newspider, Trigger, Capture}

abbrev pub defined : {A : Type 0} → Outcome A → Result A
defined (done a) = ok a
defined overflow = undefined
defined Outcome.out_of_fuel = out_of_fuel

-- A pointer that is read without a test.
abbrev pub required : {A : Type 0} → Option A → Result A
required none = undefined
required (some a) = ok a

abbrev pub Env : Type 0
Env = Text → Option Text

abbrev pub bind_name : Env → Text → Option Text → Env
bind_name env name value n = if text_eq name n then value else env n

-- What the function changes: the variables, the events that the printer was given, those since
-- the print buffer was last cleared, the file of patterns (`pattern_fp`, NULL for a spider that
-- another one starts for the first time), and the strings in the table of uniques.
pub record Scrape (W : Type 0) : Type 0 where
  pub env : Env
  pub events : List Event
  pub buffered : List Event
  pub patterns : Option Text
  pub seen : List Text
  pub world : W

abbrev pub Spawn : Type 0 → Type 0
Spawn W = Text → Option Text → Option Text → Scrape W → Result (Scrape W)

abbrev pub content_of : Option Text → Result (Option Text)
content_of none = ok none
content_of (some outstr) = do content ← defined (sf_pcre_getcontent outstr); ok (some content)

-- `sf_pcre_out_pattern`: the expansion, cut off at SF_MAX_VAR_SIZE - 1 bytes.
unfoldable pub sf_pcre_out_pattern : Env → Text → Result Text
sf_pcre_out_pattern env pattern = do
  tmpexp ← defined (sf_var_exp env pattern)
  ok (take (max_var_size - 1) tmpexp)

abbrev pub expand_if : Env → Option Text → Result (Option Text)
expand_if env none = ok none
expand_if env (some e) = do t ← defined (sf_var_exp env e); ok (some t)

unfoldable pub is_seen : List Text → Text → Bool
is_seen [] t = false
is_seen (u ∷ seen) t = text_eq u t || is_seen seen t

module _ {W : Type 0} where
  abbrev pub print_event : Event → Scrape W → Scrape W
  print_event e s = record s { events = s.events ++ e ∷ []; buffered = s.buffered ++ e ∷ [] }

  abbrev pub free_print_buf : Scrape W → Scrape W
  free_print_buf s = record s { buffered = [] }

  -- `sf_var_insert` of a new record.
  abbrev pub store : Text → Option Text → Scrape W → Scrape W
  store name value s = record s {
    env = bind_name s.env name (some (sf_var_create name value).value);
  }

  abbrev pub unstore : Text → Scrape W → Scrape W
  unstore name s = record s { env = bind_name s.env name none }

  abbrev pub store_if : Option Text → Option Text → Scrape W → Scrape W
  store_if none value s = s
  store_if (some name) value s = store name value s

  abbrev pub unstore_if : Option Text → Scrape W → Scrape W
  unstore_if none s = s
  unstore_if (some name) s = unstore name s

  -- The loop over the captures when there is no match.
  unfoldable pub forget : List Capture → Scrape W → Scrape W
  forget [] s = s
  forget (cap ∷ caps) s = forget caps (unstore_if cap.content_as (unstore_if cap.store_as s))

  abbrev pub store_content : Option Text → Option Text → Scrape W → Result (Scrape W)
  store_content none outstr s = ok s
  store_content (some name) outstr s = do content ← content_of outstr; ok (store name content s)

  abbrev pub write_pattern : Option Text → Scrape W → Result (Scrape W)
  write_pattern none s = ok s
  write_pattern (some pattern) s = do
    varbuf ← sf_pcre_out_pattern s.env pattern
    written ← required s.patterns
    ok (record s { patterns = some (written ++ varbuf) })

  abbrev pub write_json : Option Text → Scrape W → Result (Scrape W)
  write_json none s = ok s
  write_json (some varexp) s = defined (sf_json_print_buf print_event s.env varexp s)

  -- One capture of a match: `named` gives the substring of a name.
  unfoldable pub capture : (Text → Option Text) → Capture → Scrape W → Result (Scrape W)
  capture named cap s = do
    capstr ← required cap.capstr
    let outstr = named capstr
    s1 ← store_content cap.content_as outstr (store_if cap.store_as outstr s)
    s2 ← write_pattern cap.out_pattern s1
    write_json cap.json_out s2

  unfoldable pub captures : (Text → Option Text) → List Capture → Scrape W → Result (Scrape W)
  captures named [] s = ok s
  captures named (cap ∷ caps) s = do s' ← capture named cap s; captures named caps s'

  -- Whether the record is a duplicate, and the table behind it.
  abbrev pub check_uniq : Option Text → Scrape W → Result (Bool × Scrape W)
  check_uniq none s = ok (false, s)
  check_uniq (some uniq) s = do
    tmpstr ← defined (sf_var_exp s.env uniq)
    if is_seen s.seen tmpstr
        then ok (true, free_print_buf s)
        else ok (false, record s { seen = tmpstr ∷ s.seen })

  abbrev pub begin_record : Option Text → Scrape W → Scrape W
  begin_record none s = s
  begin_record (some name) s =
      print_event array_begin (print_event (key name) (print_event object_begin s))

  abbrev pub end_record : Option Text → Scrape W → Scrape W
  end_record none s = s
  end_record (some name) s = print_event object_end (print_event array_end s)

  -- `popen` takes the command and gives the first 1000 bytes of its output as a string, if it starts.
  module _ (popen : Text → W → Option Text × W) where
    abbrev pub store_result : Option Text → Option Text × W → Scrape W → Scrape W
    store_result store_as (none, w) s = record s { world = w }
    store_result store_as (some result, w) s =
        store_if store_as (some result) (record s { world = w })

    unfoldable pub run_trigger : Trigger → Scrape W → Result (Scrape W)
    run_trigger trig s = do
      pattern ← required trig.args
      args ← defined (sf_var_exp s.env pattern)
      program ← required trig.program
      ok (store_result trig.store_as (popen (bytes "./" ++ (program ++ (b' ' ∷ args))) s.world) s)

    unfoldable pub run_triggers : List Trigger → Scrape W → Result (Scrape W)
    unfolding run_trigger
    run_triggers [] s = ok s
    run_triggers (trig ∷ trigs) s = do s' ← run_trigger trig s; run_triggers trigs s'

  -- `spawn` finds or reads the configuration of this name, and starts its spider with a start URL
  -- and an input file.
  unfoldable pub run_newspider : Spawn W → Newspider → Scrape W → Result (Scrape W)
  run_newspider spawn ns s = do
    conf_fn ← required ns.conf_fn
    starturl ← expand_if s.env ns.url_exp
    spawn conf_fn starturl ns.fin_fn s

  unfoldable pub run_newspiders : Spawn W → List Newspider → Scrape W → Result (Scrape W)
  unfolding run_newspider
  run_newspiders spawn [] s = ok s
  run_newspiders spawn (ns ∷ nss) s = do s' ← run_newspider spawn ns s; run_newspiders spawn nss s'
