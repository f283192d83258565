-- ===== src/Perform/Invariant.antt =====
-- A relation between the states before and after that every primitive change keeps is kept by the
-- whole of `sf_pcre_perform`.
use spiderframe.Base.{
  ◌-◌, ◌≡◌, refl, subst⁻¹, Bool, true, false, Option, none, some, List, [], ◌∷◌, ◌++◌, Text, take,
  if◌then◌else◌,
}
use spiderframe.Base.Result.{Result, ok, undefined, out_of_fuel, exited, ◌>>=◌, Safely, Safely-bind}
use spiderframe.Template.{Outcome, done, overflow}
use spiderframe.Template.Parse.{parse, IsEnded}
use spiderframe.Content.{sf_pcre_getcontent}
use spiderframe.Content.Loop.{getcontent-fits}
use spiderframe.Json.{Event, object_begin, object_end}
use spiderframe.Json.Fields.{field_events, print_all, sf_json_print_buf-events}
use spiderframe.Json.Nested.{IsInside, object, field_events-IsInside}
use spiderframe.Var.Expand.{sf_var_exp, max_var_size, sf_var_exp-IsEnded}
use spiderframe.Policy.{Newspider, Trigger, Capture}
use spiderframe.Perform.Record.{
  Scrape, Spawn, Env, defined, required, print_event, free_print_buf, store, store_if, unstore_if,
  forget, content_of, store_content, sf_pcre_out_pattern, write_pattern, write_json, capture,
  captures, is_seen, check_uniq, begin_record, end_record, store_result, run_trigger, run_triggers,
  run_newspiders, expand_if, run_newspider,
}

-- Changes that may come in any order, and what stands between the beginning and the end of a record.
pub record IsKept {W : Type 0} (Rel : Scrape W → Scrape W → Type 0) : Type 0 where
  pub same : (s : Scrape W) → Rel s s
  pub next : (s t u : Scrape W) → Rel s t → Rel t u → Rel s u
  pub env : (s : Scrape W) (e : Env) → Rel s (record s { env = e })
  pub patterns : (s : Scrape W) (p : Option Text) → Rel s (record s { patterns = p })
  pub world : (s : Scrape W) (w : W) → Rel s (record s { world = w })
  pub clear : (s : Scrape W) → Rel s (free_print_buf s)
  pub fresh :
      (s : Scrape W) (t : Text) → is_seen s.seen t ≡ false → Rel s (record s { seen = t ∷ s.seen })
  pub print :
      (s : Scrape W) (es : List Event)
      → IsInside object es
      → Rel s (print_all print_event (object_begin ∷ es ++ object_end ∷ []) s)
  pub wrapped :
      (name : Option Text) (s t : Scrape W)
      → Rel (begin_record name s) t
      → Rel s (end_record name t)

-- The code ends, whatever it returns.
abbrev Ends : {A : Type 0} → Result A → Type 0
Ends {A} r = Safely (λ (a : A). Unit {0}) r

defined-Ends : {A : Type 0} (o : Outcome A) → IsEnded o → Ends (defined o)
defined-Ends (done a) h = tt
defined-Ends overflow h = tt
defined-Ends Outcome.out_of_fuel h = h

exp-Ends : (env : Env) (e : Text) → Ends (defined (sf_var_exp env e))
exp-Ends env e = defined-Ends (sf_var_exp env e) (sf_var_exp-IsEnded env e)

getcontent-Ends : (t : Text) → Ends (defined (sf_pcre_getcontent t))
unfolding sf_pcre_getcontent
getcontent-Ends [] = tt
getcontent-Ends (c ∷ t) =
    let (out, run, le) = getcontent-fits c t in
    subst⁻¹ (λ (o : Outcome Text). Ends (defined o)) run tt

content-Ends : (outstr : Option Text) → Ends (content_of outstr)
content-Ends none = tt
content-Ends (some t) =
    Safely-bind (λ a. Unit {0}) (λ a. Unit {0}) (defined (sf_pcre_getcontent t)) (λ c. ok (some c))
      (getcontent-Ends t) (λ c h. tt)

required-Ends : {A : Type 0} (o : Option A) → Ends (required o)
required-Ends none = tt
required-Ends (some a) = tt

expand-Ends : (env : Env) (e : Option Text) → Ends (expand_if env e)
expand-Ends env none = tt
expand-Ends env (some e) =
    Safely-bind (λ t. Unit {0}) (λ t. Unit {0}) (defined (sf_var_exp env e)) _ (exp-Ends env e)
      (λ t h. tt)

module _ {W : Type 0} (Rel : Scrape W → Scrape W → Type 0) (k : IsKept Rel) where
  store_if-Rel : (name value : Option Text) (s : Scrape W) → Rel s (store_if name value s)
  store_if-Rel none value s = k.same s
  store_if-Rel (some name) value s = k.env s _

  unstore_if-Rel : (name : Option Text) (s : Scrape W) → Rel s (unstore_if name s)
  unstore_if-Rel none s = k.same s
  unstore_if-Rel (some name) s = k.env s _

  pub forget-Rel : (caps : List Capture) (s : Scrape W) → Rel s (forget caps s)
  unfolding forget
  forget-Rel [] s = k.same s
  forget-Rel (cap ∷ caps) s =
      let s1 = unstore_if cap.store_as s in
      let s2 = unstore_if cap.content_as s1 in
      k.next s s1 _ (unstore_if-Rel cap.store_as s)
        (k.next s1 s2 _ (unstore_if-Rel cap.content_as s1) (forget-Rel caps s2))

  store_content-Rel :
      (name outstr : Option Text) (s : Scrape W) → Safely (Rel s) (store_content name outstr s)
  store_content-Rel none outstr s = k.same s
  store_content-Rel (some name) outstr s =
      Safely-bind (λ c. Unit {0}) (Rel s) (content_of outstr) (λ c. ok (store name c s))
        (content-Ends outstr) (λ c h. k.env s _)

  write_pattern-Rel :
      (pattern : Option Text) (s : Scrape W) → Safely (Rel s) (write_pattern pattern s)
  unfolding sf_pcre_out_pattern
  write_pattern-Rel none s = k.same s
  write_pattern-Rel (some pattern) s =
      Safely-bind (λ c. Unit {0}) (Rel s) (sf_pcre_out_pattern s.env pattern)
        (λ v. required s.patterns >>= λ written. ok (record s { patterns = some (written ++ v) }))
        (Safely-bind (λ c. Unit {0}) (λ c. Unit {0}) (defined (sf_var_exp s.env pattern))
          (λ t. ok (take (max_var_size - 1) t)) (exp-Ends s.env pattern) (λ t h. tt))
        (λ v h.
          Safely-bind (λ c. Unit {0}) (Rel s) (required s.patterns) _ (required-Ends s.patterns)
            (λ written h. k.patterns s _))

  write_json-Rel : (varexp : Option Text) (s : Scrape W) → Safely (Rel s) (write_json varexp s)
  write_json-Rel none s = k.same s
  write_json-Rel (some e) s =
      let (ps, p) = parse b'$' e in
      subst⁻¹ (λ (o : Outcome (Scrape W)). Safely (Rel s) (defined o))
        (sf_json_print_buf-events print_event s.env e ps s p)
        (k.print s (field_events s.env ps) (field_events-IsInside s.env ps))

  -- One change after another.
  pub then_Rel :
      (s : Scrape W) (r : Result (Scrape W)) (f : Scrape W → Result (Scrape W))
      → Safely (Rel s) r
      → ((t : Scrape W) → Safely (Rel t) (f t))
      → Safely (Rel s) (r >>= f)
  then_Rel s undefined f h g = tt
  then_Rel s out_of_fuel f h g = absurd h
  then_Rel s exited f h g = tt
  then_Rel s (ok t) f h g = weaken (f t) (g t)
    where
      weaken : (r : Result (Scrape W)) → Safely (Rel t) r → Safely (Rel s) r
      weaken undefined m = tt
      weaken out_of_fuel m = m
      weaken exited m = tt
      weaken (ok u) m = k.next s t u h m

  capture-Rel :
      (named : Text → Option Text) (cap : Capture) (s : Scrape W)
      → Safely (Rel s) (capture named cap s)
  unfolding capture
  capture-Rel named cap s =
      Safely-bind (λ c. Unit {0}) (Rel s) (required cap.capstr) _ (required-Ends cap.capstr)
        (λ capstr h.
          let outstr = named capstr in
          then_Rel s (ok (store_if cap.store_as outstr s)) _ (store_if-Rel cap.store_as outstr s)
            (λ s0.
              then_Rel s0 (store_content cap.content_as outstr s0) _
                (store_content-Rel cap.content_as outstr s0)
                (λ s1.
                  then_Rel s1 (write_pattern cap.out_pattern s1) _
                    (write_pattern-Rel cap.out_pattern s1) (write_json-Rel cap.json_out))))

  pub captures-Rel :
      (named : Text → Option Text) (caps : List Capture) (s : Scrape W)
      → Safely (Rel s) (captures named caps s)
  unfolding captures
  captures-Rel named [] s = k.same s
  captures-Rel named (cap ∷ caps) s =
      then_Rel s (capture named cap s) _ (capture-Rel named cap s) (captures-Rel named caps)

  checked-Ends : (uniq : Text) (s : Scrape W) → Ends (defined (sf_var_exp s.env uniq))
  checked-Ends uniq s = exp-Ends s.env uniq

  seen-Rel :
      (t : Text) (s : Scrape W) (b : Bool)
      → is_seen s.seen t ≡ b
      → Safely
          (λ (x : Bool × Scrape W). Rel s x.1)
          (if b then ok (true, free_print_buf s) else ok (false, record s { seen = t ∷ s.seen }))
  seen-Rel t s true h = k.clear s
  seen-Rel t s false h = k.fresh s t h

  pub check_uniq-Rel :
      (uniq : Option Text) (s : Scrape W)
      → Safely (λ (x : Bool × Scrape W). Rel s x.1) (check_uniq uniq s)
  check_uniq-Rel none s = k.same s
  check_uniq-Rel (some uniq) s =
      Safely-bind (λ t. Unit {0}) (λ (x : Bool × Scrape W). Rel s x.1)
        (defined (sf_var_exp s.env uniq)) _ (exp-Ends s.env uniq)
        (λ t h. seen-Rel t s (is_seen s.seen t) refl)

  store_result-Rel :
      (popen : Text → W → Option Text × W) (store_as : Option Text) (r : Option Text × W)
      (s : Scrape W)
      → Rel s (store_result popen store_as r s)
  store_result-Rel popen store_as (none, w) s = k.world s w
  store_result-Rel popen store_as (some result, w) s =
      k.next s (record s { world = w }) _ (k.world s w)
        (store_if-Rel store_as (some result) (record s { world = w }))

  run_trigger-Rel :
      (popen : Text → W → Option Text × W) (trig : Trigger) (s : Scrape W)
      → Safely (Rel s) (run_trigger popen trig s)
  unfolding run_trigger
  run_trigger-Rel popen trig s =
      Safely-bind (λ c. Unit {0}) (Rel s) (required trig.args) _ (required-Ends trig.args)
        (λ pattern h.
          Safely-bind (λ c. Unit {0}) (Rel s) (defined (sf_var_exp s.env pattern)) _
            (exp-Ends s.env pattern)
            (λ args h.
              Safely-bind (λ c. Unit {0}) (Rel s) (required trig.program) _
                (required-Ends trig.program)
                (λ program h. store_result-Rel popen trig.store_as _ s)))

  pub run_triggers-Rel :
      (popen : Text → W → Option Text × W) (trigs : List Trigger) (s : Scrape W)
      → Safely (Rel s) (run_triggers popen trigs s)
  unfolding run_triggers
  run_triggers-Rel popen [] s = k.same s
  run_triggers-Rel popen (trig ∷ trigs) s =
      then_Rel s (run_trigger popen trig s) _ (run_trigger-Rel popen trig s)
        (run_triggers-Rel popen trigs)

  module _ (spawn : Spawn W)
      (spawn-Rel : (conf_fn : Text) (start fin : Option Text) (s : Scrape W)
        → Safely (Rel s) (spawn conf_fn start fin s)) where
    run_newspider-Rel : (ns : Newspider) (s : Scrape W) → Safely (Rel s) (run_newspider spawn ns s)
    unfolding run_newspider
    run_newspider-Rel ns s =
        Safely-bind (λ c. Unit {0}) (Rel s) (required ns.conf_fn) _ (required-Ends ns.conf_fn)
          (λ conf_fn h.
            Safely-bind (λ c. Unit {0}) (Rel s) (expand_if s.env ns.url_exp) _
              (expand-Ends s.env ns.url_exp) (λ start h. spawn-Rel conf_fn start ns.fin_fn s))

    pub run_newspiders-Rel :
        (nss : List Newspider) (s : Scrape W) → Safely (Rel s) (run_newspiders spawn nss s)
    unfolding run_newspiders
    run_newspiders-Rel [] s = k.same s
    run_newspiders-Rel (ns ∷ nss) s =
        then_Rel s (run_newspider spawn ns s) _ (run_newspider-Rel ns s) (run_newspiders-Rel nss)
