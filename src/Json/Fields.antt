-- ===== src/Json/Fields.antt =====
-- The events of sf_json_print_buf.
use spiderframe.Base.{
  suc, ◌≡◌, refl, sym, ap, ◌∙◌, Option, none, some, List, [], ◌∷◌, ◌++◌, arith, Text, length, tail,
}
use spiderframe.Template.{done, Part, literal, place, unclosed, visit_all}
use spiderframe.Template.Parse.{Parses, scan-visit_all}
use spiderframe.Json.{
  Event, object_begin, object_end, key, string, print_var, json_visit, close_object,
  sf_json_print_buf,
}

abbrev pub var_events : Text → Option Text → List Event
var_events name none = []
var_events name (some value) = key (tail name) ∷ string value ∷ []

-- The fields of a pattern: a key and a string for each placeholder whose variable is defined, the
-- key without its sign.
unfoldable pub field_events : (Text → Option Text) → List Part → List Event
field_events vars [] = []
field_events vars (literal c ∷ ps) = field_events vars ps
field_events vars (place name ∷ ps) = var_events name (vars name) ++ field_events vars ps
field_events vars (unclosed s ∷ ps) = field_events vars ps

module _ {P : Type 0} (print : Event → P → P) where
  -- The printer after a list of events.
  unfoldable pub print_all : List Event → P → P
  print_all [] p = p
  print_all (e ∷ es) p = print_all es (print e p)

  print_all-append :
      (es fs : List Event) (p : P) → print_all (es ++ fs) p ≡ print_all fs (print_all es p)
  unfolding print_all
  print_all-append [] fs p = refl
  print_all-append (e ∷ es) fs p = print_all-append es fs (print e p)

  visit_var :
      (name : Text) (v : Option Text) (p : P)
      → print_var print name v p ≡ print_all (var_events name v) p
  unfolding print_all
  visit_var name none p = refl
  visit_var name (some v) p = refl

  visit_all-events :
      (vars : Text → Option Text) (ps : List Part) (p : P)
      → visit_all b'$' (json_visit print vars) ps p ≡ done (print_all (field_events vars ps) p)
  unfolding visit_all json_visit field_events print_all
  visit_all-events vars [] p = refl
  visit_all-events vars (literal c ∷ ps) p = visit_all-events vars ps p
  visit_all-events vars (place name ∷ ps) p =
      let q = print_var print name (vars name) p in
      visit_all-events vars ps q
      ∙ ap done (
          ap (print_all (field_events vars ps)) (visit_var name (vars name) p)
          ∙ sym (print_all-append (var_events name (vars name)) (field_events vars ps) p))
  visit_all-events vars (unclosed s ∷ ps) p = visit_all-events vars ps p

  -- For a pattern that reads as parts, sf_json_print_buf ends and prints one object: its
  -- beginning, a key and a string for each placeholder with a variable, in order, and its end.
  pub sf_json_print_buf-events :
      (vars : Text → Option Text) (e : Text) (ps : List Part) (p : P)
      → Parses b'$' e ps
      → sf_json_print_buf print vars e p
        ≡ done (print_all (object_begin ∷ field_events vars ps ++ object_end ∷ []) p)
  unfolding sf_json_print_buf print_all
  sf_json_print_buf-events vars e ps p h =
      ap (close_object print) (
        scan-visit_all b'$' (json_visit print vars) (suc (length e)) (print object_begin p) h
          (omega arith)
        ∙ visit_all-events vars ps (print object_begin p))
      ∙ ap done
          (sym (print_all-append (field_events vars ps) (object_end ∷ []) (print object_begin p)))
