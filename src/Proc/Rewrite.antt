-- ===== src/Proc/Rewrite.antt =====
-- What `sf_rewrite_exp` returns.
use spiderframe.Base.{
  suc, ◌+◌, ◌≤◌, ◌≡◌, refl, ap, ◌∙◌, Bool, true, false, not, ◌&&◌, Option, none, some, List, [],
  ◌∷◌, ◌++◌, append-nil, append_assoc, arith, tail, Text, length, length-append, ltb, leb,
  if◌then◌else◌, Bool-cases, inl, inr,
}
use spiderframe.Template.{Outcome, done, overflow, Part, literal, place, unclosed, visit_all, go_on}
use spiderframe.Template.Parse.{Parses, scan-visit_all}
use spiderframe.Var.Expand.{var_value, render}
use spiderframe.Proc.{
  Rewriting, max_rewrite, put, put_group, put_terminated, rewrite_visit, as_string, no_output,
  sf_rewrite_exp,
}

abbrev pub fits : Text → Outcome Text
fits s = if ltb (length s) max_rewrite then done s else overflow

abbrev is_none : Option Text → Bool
is_none none = true
is_none (some s) = false

-- No placeholder of this list is without a group.
unfoldable pub all_found : (Text → Option Text) → List Part → Bool
all_found groups [] = true
all_found groups (literal c ∷ ps) = all_found groups ps
all_found groups (place name ∷ ps) = not (is_none (groups name)) && all_found groups ps
all_found groups (unclosed s ∷ ps) = all_found groups ps

-- No placeholder without a group stands behind one with a group.
unfoldable pub found_last : (Text → Option Text) → List Part → Bool
found_last groups [] = true
found_last groups (literal c ∷ ps) = found_last groups ps
found_last groups (place name ∷ ps) =
    if is_none (groups name) then found_last groups ps else all_found groups ps
found_last groups (unclosed s ∷ ps) = found_last groups ps

-- The rest of the parts can be visited.
abbrev in_order : (Text → Option Text) → Bool → List Part → Bool
in_order groups freed ps = if freed then all_found groups ps else found_last groups ps

-- What does not fit any more never will.
too_long :
    (out s rest : Text) (b : Bool)
    → max_rewrite ≤ length out + length s
    → overflow ≡ (if b then fits (out ++ (s ++ rest)) else overflow)
too_long out s rest true h =
    let e : ltb (length (out ++ (s ++ rest))) max_rewrite ≡ false =
      ground (arith, length-append {0} out (s ++ rest), length-append {0} s rest) in
    rw e refl
too_long out s rest false h = refl

-- The rest is visited with this result.
Visits : (Rewriting → Outcome Rewriting) → (Bool → Bool) → Text → Type 0
Visits next b rest =
    (st : Rewriting)
    → length st.out ≤ max_rewrite
    → as_string (next st) ≡ (if b st.freed then fits (st.out ++ rest) else overflow)

regroup :
    (out s rest : Text) (b : Bool)
    → (if b then fits ((out ++ s) ++ rest) else overflow)
      ≡ (if b then fits (out ++ (s ++ rest)) else overflow)
regroup out s rest b = ap (λ (t : Text). if b then fits t else overflow) (append_assoc out s rest)

-- One part, and then the rest.
put-visited :
    (out s rest : Text) (freed : Bool) (next : Rewriting → Outcome Rewriting) (b : Bool → Bool)
    → Visits next b rest
    → as_string (go_on next (put out freed s))
      ≡ (if b freed then fits (out ++ (s ++ rest)) else overflow)
unfolding Visits
put-visited out s rest freed next b ih =
    elim (Bool-cases (leb (length out + length s) max_rewrite)) [
      | inl e ↦ rw e (
          ih (record { out = out ++ s; freed = freed }) (ground (arith, length-append {0} out s))
          ∙ regroup out s rest (b freed))
      | inr e ↦ rw e (too_long out s rest (b freed) (ground arith))
    ]

put_terminated-visited :
    (out s rest : Text) (freed : Bool) (next : Rewriting → Outcome Rewriting) (b : Bool → Bool)
    → Visits next b rest
    → as_string (go_on next (put_terminated out freed s))
      ≡ (if b freed then fits (out ++ (s ++ rest)) else overflow)
unfolding Visits
put_terminated-visited out s rest freed next b ih =
    elim (Bool-cases (ltb (length out + length s) max_rewrite)) [
      | inl e ↦ rw e (
          ih (record { out = out ++ s; freed = freed }) (ground (arith, length-append {0} out s))
          ∙ regroup out s rest (b freed))
      | inr e ↦ rw e (too_long out s rest (b freed) (ground arith))
    ]

put_group-visited :
    (groups : Text → Option Text) (name : Text) (ps : List Part) (st : Rewriting) (o : Option Text)
    (next : Rewriting → Outcome Rewriting)
    → Visits next (λ freed. in_order groups freed ps) (render groups ps)
    → as_string (go_on next (put_group name o st)) ≡ (
        if (if st.freed
          then not (is_none o) && all_found groups ps
          else if is_none o
          then found_last groups ps
          else all_found groups ps)
        then fits (st.out ++ (var_value name o ++ render groups ps))
        else overflow)
unfolding var_value
put_group-visited groups name ps st (some s) next ih = elim (Bool-cases st.freed) [
  | inl e ↦ rw e (put-visited st.out s (render groups ps) true next _ ih)
  | inr e ↦ rw e (put-visited st.out s (render groups ps) true next _ ih)
]
put_group-visited groups name ps st none next ih = elim (Bool-cases st.freed) [
  | inl e ↦ rw e refl
  | inr e ↦ rw e (put-visited st.out (var_value name none) (render groups ps) false next _ ih)
]

visit_all-visited :
    (groups : Text → Option Text) (ps : List Part)
    → Visits
        (visit_all b'#' (rewrite_visit groups) ps)
        (λ freed. in_order groups freed ps)
        (render groups ps)
unfolding Visits visit_all rewrite_visit render all_found found_last
visit_all-visited groups [] st small = elim (Bool-cases st.freed) [
  | inl e ↦ rw (e, append-nil st.out) refl
  | inr e ↦ rw (e, append-nil st.out) refl
]
visit_all-visited groups (literal c ∷ ps) st small =
    put-visited st.out (c ∷ []) (render groups ps) st.freed _ (λ freed. in_order groups freed ps)
      (visit_all-visited groups ps)
visit_all-visited groups (place name ∷ ps) st small =
    put_group-visited groups name ps st (groups name) _ (visit_all-visited groups ps)
visit_all-visited groups (unclosed s ∷ ps) st small =
    put_terminated-visited st.out s (render groups ps) st.freed _
      (λ freed. in_order groups freed ps) (visit_all-visited groups ps)

-- For a rewriting that reads as parts, and in which no placeholder without a group stands behind one
-- with a group, sf_rewrite_exp returns what the parts stand for, each placeholder the named
-- substring of the match, or itself if there is none, when that is shorter than the buffer. If it is
-- not shorter, or if a placeholder without a group stands behind one with a group, whose substring is
-- then freed twice, the outcome is what C leaves undefined.
pub sf_rewrite_exp-fits :
    (group : Text → Option Text) (e url : Text) (ps : List Part)
    → Parses b'#' e ps
    → sf_rewrite_exp group (some e) url ≡ (
        if found_last (λ name. group (tail name)) ps
        then fits (render (λ name. group (tail name)) ps)
        else overflow)
unfolding sf_rewrite_exp Visits
sf_rewrite_exp-fits group e url ps p =
    ap as_string (
      scan-visit_all b'#' (rewrite_visit (λ name. group (tail name))) (suc (length e)) no_output p
        (omega arith))
    ∙ visit_all-visited (λ name. group (tail name)) ps no_output (omega arith)
