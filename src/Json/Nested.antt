-- ===== src/Json/Nested.antt =====
-- JSON events whose brackets match, and the printer of sf_json.c as the events that it was given.
use spiderframe.Base.{◌≡◌, refl, ap, ◌∙◌, Option, none, some, List, [], ◌∷◌, ◌++◌, Text, tail}
use spiderframe.Json.{Event, object_begin, object_end, array_begin, array_end, key, string}
use spiderframe.Json.Fields.{field_events, var_events}
use spiderframe.Template.{Part, literal, place, unclosed}

pub data Bracket : Type 0 where
  object array : Bracket

-- What is open, the innermost first. A key stands in an object.
unfoldable pub one_event : Event → List Bracket → Option (List Bracket)
one_event object_begin st = some (object ∷ st)
one_event array_begin st = some (array ∷ st)
one_event object_end (object ∷ st) = some st
one_event object_end st = none
one_event array_end (array ∷ st) = some st
one_event array_end st = none
one_event (key k) (object ∷ st) = some (object ∷ st)
one_event (key k) st = none
one_event (string s) st = some st

abbrev pub then_open :
    Option (List Bracket) → (List Bracket → Option (List Bracket)) → Option (List Bracket)
then_open none f = none
then_open (some st) f = f st

unfoldable pub open_after : List Event → List Bracket → Option (List Bracket)
unfolding one_event
open_after [] st = some st
open_after (e ∷ es) st = then_open (one_event e st) (open_after es)

open_after_then :
    (es fs rest : List Event) (o : Option (List Bracket))
    → ((st : List Bracket) → open_after rest st ≡ then_open (open_after es st) (open_after fs))
    → then_open o (open_after rest) ≡ then_open (then_open o (open_after es)) (open_after fs)
open_after_then es fs rest none h = refl
open_after_then es fs rest (some st) h = h st

open_after-append :
    (es fs : List Event) (st : List Bracket)
    → open_after (es ++ fs) st ≡ then_open (open_after es st) (open_after fs)
unfolding open_after
open_after-append [] fs st = refl
open_after-append (e ∷ es) fs st =
    open_after_then es fs (es ++ fs) (one_event e st) (open_after-append es fs)

-- Everything that is opened is closed, and nothing else, wherever the events stand.
pub IsNested : List Event → Type 0
IsNested es = (st : List Bracket) → open_after es st ≡ some st

-- The same inside a bracket.
pub IsInside : Bracket → List Event → Type 0
IsInside b es = (st : List Bracket) → open_after es (b ∷ st) ≡ some (b ∷ st)

pub IsNested-nil : IsNested []
unfolding IsNested open_after
IsNested-nil st = refl

pub IsNested-append : (es fs : List Event) → IsNested es → IsNested fs → IsNested (es ++ fs)
unfolding IsNested
IsNested-append es fs n m st =
    open_after-append es fs st ∙ ap (λ o. then_open o (open_after fs)) (n st) ∙ m st

pub IsNested-IsInside : (b : Bracket) (es : List Event) → IsNested es → IsInside b es
unfolding IsNested IsInside
IsNested-IsInside b es n st = n (b ∷ st)

pub IsInside-append :
    (b : Bracket) (es fs : List Event) → IsInside b es → IsInside b fs → IsInside b (es ++ fs)
unfolding IsInside
IsInside-append b es fs n m st =
    open_after-append es fs (b ∷ st) ∙ ap (λ o. then_open o (open_after fs)) (n st) ∙ m st

pub object-IsNested :
    (es : List Event) → IsInside object es → IsNested (object_begin ∷ es ++ object_end ∷ [])
unfolding IsNested IsInside open_after
object-IsNested es n st =
    open_after-append es (object_end ∷ []) (object ∷ st)
    ∙ ap (λ o. then_open o (open_after (object_end ∷ []))) (n st)

pub array-IsNested :
    (es : List Event) → IsInside array es → IsNested (array_begin ∷ es ++ array_end ∷ [])
unfolding IsNested IsInside open_after
array-IsNested es n st =
    open_after-append es (array_end ∷ []) (array ∷ st)
    ∙ ap (λ o. then_open o (open_after (array_end ∷ []))) (n st)

pub key-IsInside : (k : Text) (es : List Event) → IsInside object es → IsInside object (key k ∷ es)
unfolding IsInside open_after
key-IsInside k es n st = n st

pub string-IsInside :
    (b : Bracket) (s : Text) (es : List Event) → IsInside b es → IsInside b (string s ∷ es)
unfolding IsInside open_after
string-IsInside b s es n st = n st

var_events-IsInside :
    (name : Text) (v : Option Text) (es : List Event)
    → IsInside object es
    → IsInside object (var_events name v ++ es)
var_events-IsInside name none es n = n
var_events-IsInside name (some v) es n =
    key-IsInside (tail name) (string v ∷ es) (string-IsInside object v es n)

pub field_events-IsInside :
    (vars : Text → Option Text) (ps : List Part) → IsInside object (field_events vars ps)
unfolding field_events
field_events-IsInside vars [] = IsNested-IsInside object [] IsNested-nil
field_events-IsInside vars (literal c ∷ ps) = field_events-IsInside vars ps
field_events-IsInside vars (place name ∷ ps) =
    var_events-IsInside name (vars name) (field_events vars ps) (field_events-IsInside vars ps)
field_events-IsInside vars (unclosed s ∷ ps) = field_events-IsInside vars ps
