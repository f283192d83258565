-- ===== src/Perform/Output.antt =====
-- The events that `sf_pcre_perform` gives to the printer of sf_json.c.
use spiderframe.Base.{
  ℕ, ◌≡◌, refl, sym, ap, ◌∙◌, Option, none, some, List, [], ◌∷◌, ◌++◌, append-nil, append_assoc,
  Text,
}
use spiderframe.Base.Result.{Safely}
use spiderframe.Json.{Event, object_begin, object_end, array_begin, array_end, key}
use spiderframe.Json.Fields.{print_all}
use spiderframe.Json.Nested.{
  IsNested, IsNested-nil, IsNested-append, IsNested-IsInside, IsInside, object, object-IsNested,
  array, array-IsNested, key-IsInside,
}
use spiderframe.Policy.{Policy}
use spiderframe.Perform.{Subject, sf_pcre_perform}
use spiderframe.Perform.Record.{Scrape, Spawn, print_event, begin_record, end_record}
use spiderframe.Perform.Invariant.{IsKept}
use spiderframe.Perform.Kept.{perform-Rel}

-- What was printed between two states is nested.
pub Printed : {W : Type 0} → Scrape W → Scrape W → Type 0
Printed s t = (es : List Event) × (t.events ≡ s.events ++ es) × IsNested es

print_all-events :
    {W : Type 0} (es : List Event) (s : Scrape W)
    → (print_all print_event es s).events ≡ s.events ++ es
unfolding print_all
print_all-events [] s = sym (append-nil s.events)
print_all-events (e ∷ es) s =
    print_all-events es (print_event e s) ∙ append_assoc s.events (e ∷ []) es

unchanged : {W : Type 0} (s t : Scrape W) → t.events ≡ s.events → Printed s t
unfolding Printed
unchanged s t h = ([], h ∙ sym (append-nil s.events), IsNested-nil)

abbrev wrap : Text → List Event → List Event
wrap name es = object_begin ∷ (key name ∷ (array_begin ∷ es ++ array_end ∷ [])) ++ object_end ∷ []

wrap-IsNested : (name : Text) (es : List Event) → IsNested es → IsNested (wrap name es)
wrap-IsNested name es n = object-IsNested (key name ∷ (array_begin ∷ es ++ array_end ∷ [])) (
    key-IsInside name (array_begin ∷ es ++ array_end ∷ []) (
      IsNested-IsInside object (array_begin ∷ es ++ array_end ∷ [])
        (array-IsNested es (IsNested-IsInside array es n))))

wrap_lem :
    (before : List Event) (name : Text) (es : List Event)
    → ((((((before ++ object_begin ∷ []) ++ key name ∷ []) ++ array_begin ∷ []) ++ es)
          ++ array_end ∷ [])
        ++ object_end ∷ [])
      ≡ before ++ wrap name es
wrap_lem before name es = simp (append_assoc)

print-Printed :
    {W : Type 0} (s : Scrape W) (es : List Event)
    → IsInside object es
    → Printed s (print_all print_event (object_begin ∷ es ++ object_end ∷ []) s)
unfolding Printed
print-Printed s es n = (
  object_begin ∷ es ++ object_end ∷ [],
  print_all-events (object_begin ∷ es ++ object_end ∷ []) s,
  object-IsNested es n,
)

wrapped-Printed :
    {W : Type 0} (name : Option Text) (s t : Scrape W)
    → Printed (begin_record name s) t
    → Printed s (end_record name t)
unfolding Printed
wrapped-Printed none s t h = h
wrapped-Printed (some name) s t (es, e, n) = (
  wrap name es,
  ap (λ ev. (ev ++ array_end ∷ []) ++ object_end ∷ []) e ∙ wrap_lem s.events name es,
  wrap-IsNested name es n,
)

printed : {W : Type 0} → IsKept (Printed {W = W})
unfolding Printed
printed = record {
  same = λ s. unchanged s s refl;
  next = λ s t u (es, e, n) (fs, f, m). (
    es ++ fs,
    f ∙ ap (λ ev. ev ++ fs) e ∙ append_assoc s.events es fs,
    IsNested-append es fs n m,
  );
  env = λ s e. unchanged s (record s { env = e }) refl;
  patterns = λ s p. unchanged s (record s { patterns = p }) refl;
  world = λ s w. unchanged s (record s { world = w }) refl;
  clear = λ s. unchanged s (record s { buffered = [] }) refl;
  fresh = λ s t h. unchanged s (record s { seen = t ∷ s.seen }) refl;
  print = print-Printed;
  wrapped = wrapped-Printed;
}

-- When every new spider that a policy starts prints nested JSON events and ends, so does
-- sf_pcre_perform, on any policy, page and variables and for any answers of pcre and popen: it runs
-- out of no fuel, and unless it does what C leaves undefined, the events that it gives to the
-- printer follow those given before and are nested: every object and array it begins is ended, in
-- the right order, and each key stands in an object.
pub perform-IsNested :
    {R M W : Type 0} (pcre_exec : R → Text → Option M) (match_end : M → ℕ)
    (named : R → M → Text → Text → Option Text) (popen : Text → W → Option Text × W)
    (spawn : Spawn W)
    → ((conf_fn : Text) (start fin : Option Text) (s : Scrape W)
        → Safely (Printed s) (spawn conf_fn start fin s))
    → (p : Policy R) (url : Text) (buf hdrbuf : Subject) (s : Scrape W)
    → Safely (Printed s) (sf_pcre_perform pcre_exec match_end named popen spawn p url buf hdrbuf s)
perform-IsNested pcre_exec match_end named popen spawn h =
    perform-Rel pcre_exec match_end named popen spawn Printed printed h
