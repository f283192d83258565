-- ===== src/Perform/Unique.antt =====
-- The strings in the table of uniques, as `sf_pcre_perform` leaves them.
use spiderframe.Base.{
  ℕ, ◌≡◌, refl, ap, ◌∙◌, true, false, Option, none, some, List, [], ◌∷◌, ◌++◌, arith, Text, subst⁻¹,
}
use spiderframe.Base.Result.{Safely}
use spiderframe.Json.{Event, object_begin, object_end}
use spiderframe.Json.Fields.{print_all}
use spiderframe.Policy.{Policy}
use spiderframe.Perform.{Subject, sf_pcre_perform}
use spiderframe.Perform.Record.{Scrape, Spawn, print_event, begin_record, end_record, is_seen}
use spiderframe.Perform.Invariant.{IsKept}
use spiderframe.Perform.Kept.{perform-Rel}

-- No string is in the table twice.
unfoldable pub IsUnique : List Text → Type 0
IsUnique [] = Unit
IsUnique (t ∷ seen) = (is_seen seen t ≡ false) × IsUnique seen

-- Nothing that was seen is forgotten, and what is added is new.
unfoldable pub KeepsUnique : {W : Type 0} → Scrape W → Scrape W → Type 0
KeepsUnique s t =
    (IsUnique s.seen → IsUnique t.seen)
    × ((u : Text) → is_seen s.seen u ≡ true → is_seen t.seen u ≡ true)

unchanged : {W : Type 0} (s t : Scrape W) → t.seen ≡ s.seen → KeepsUnique s t
unfolding KeepsUnique
unchanged s t h = (λ u. subst⁻¹ IsUnique h u, λ u m. ap (λ l. is_seen l u) h ∙ m)

print_all-seen :
    {W : Type 0} (es : List Event) (s : Scrape W) → (print_all print_event es s).seen ≡ s.seen
unfolding print_all
print_all-seen [] s = refl
print_all-seen (e ∷ es) s = print_all-seen es (print_event e s)

fresh-KeepsUnique :
    {W : Type 0} (s : Scrape W) (t : Text)
    → is_seen s.seen t ≡ false
    → KeepsUnique s (record s { seen = t ∷ s.seen })
unfolding KeepsUnique IsUnique is_seen
fresh-KeepsUnique s t h = (λ u. (h, u), λ u m. ground arith)

wrapped-KeepsUnique :
    {W : Type 0} (name : Option Text) (s t : Scrape W)
    → KeepsUnique (begin_record name s) t
    → KeepsUnique s (end_record name t)
unfolding KeepsUnique
wrapped-KeepsUnique none s t h = h
wrapped-KeepsUnique (some name) s t h = h

next-KeepsUnique :
    {W : Type 0} (s t u : Scrape W) → KeepsUnique s t → KeepsUnique t u → KeepsUnique s u
unfolding KeepsUnique
next-KeepsUnique s t u (a, b) (c, d) = (λ h. c (a h), λ v h. d v (b v h))

pub kept : {W : Type 0} → IsKept (KeepsUnique {W = W})
kept = record {
  same = λ s. unchanged s s refl;
  next = next-KeepsUnique;
  env = λ s e. unchanged s (record s { env = e }) refl;
  patterns = λ s p. unchanged s (record s { patterns = p }) refl;
  world = λ s w. unchanged s (record s { world = w }) refl;
  clear = λ s. unchanged s (record s { buffered = [] }) refl;
  fresh = fresh-KeepsUnique;
  print = λ s es n. unchanged s _ (print_all-seen (object_begin ∷ es ++ object_end ∷ []) s);
  wrapped = wrapped-KeepsUnique;
}

-- When every new spider keeps the table of uniques free of repetitions and forgets none of its
-- strings, so does sf_pcre_perform, on any policy, page and variables and for any answers of pcre
-- and popen, unless it does what C leaves undefined.
pub perform-KeepsUnique :
    {R M W : Type 0} (pcre_exec : R → Text → Option M) (match_end : M → ℕ)
    (named : R → M → Text → Text → Option Text) (popen : Text → W → Option Text × W)
    (spawn : Spawn W)
    → ((conf_fn : Text) (start fin : Option Text) (s : Scrape W)
        → Safely (KeepsUnique s) (spawn conf_fn start fin s))
    → (p : Policy R) (url : Text) (buf hdrbuf : Subject) (s : Scrape W)
    → Safely
        (KeepsUnique s)
        (sf_pcre_perform pcre_exec match_end named popen spawn p url buf hdrbuf s)
perform-KeepsUnique pcre_exec match_end named popen spawn h =
    perform-Rel pcre_exec match_end named popen spawn KeepsUnique kept h
