-- ===== src/Perform/Kept.antt =====
-- What the whole of `sf_pcre_perform` keeps, given that every new spider keeps it.
use spiderframe.Base.{
  ℕ, zero, suc, ◌%◌, ◌^◌, Bool, true, false, Option, none, some, List, [], ◌∷◌, Text, length, ltb,
  take, if◌then◌else◌,
}
use spiderframe.Base.Int.{pos_part}
use spiderframe.Base.Result.{Result, ok, undefined, Safely, Safely-bind, Safely-map}
use spiderframe.Policy.{Pcre, Policy}
use spiderframe.Perform.{
  Subject, Subjects, which, select, read_subject, act, match_round, on_match, search_in,
  repeat_loop, one_pcre, pcre_loop, sf_pcre_perform,
}
use spiderframe.Perform.Record.{Scrape, Spawn, captures, check_uniq, begin_record, run_triggers}
use spiderframe.Perform.Invariant.{
  IsKept, then_Rel, forget-Rel, captures-Rel, check_uniq-Rel, run_triggers-Rel, run_newspiders-Rel,
}

-- A read ends, with or without a fault.
read_ends : (sub : Subject) → Safely (λ (t : Option Text). Unit {0}) (read_subject sub)
unfolding read_subject
read_ends sub = by_test (ltb (sub.len % 2 ^ 32) (2 ^ 31)) (ltb (length sub.rest) (sub.len % 2 ^ 32))
  where
    by_test :
        (a b : Bool)
        → Safely
            (λ (t : Option Text). Unit {0})
            (if a
              then (if b then undefined else ok (some (take (sub.len % 2 ^ 32) sub.rest)))
              else ok none)
    by_test true true = tt
    by_test true false = tt
    by_test false b = tt

module _ {R M W : Type 0} (pcre_exec : R → Text → Option M) (match_end : M → ℕ)
    (named : R → M → Text → Text → Option Text) (popen : Text → W → Option Text × W)
    (spawn : Spawn W) (Rel : Scrape W → Scrape W → Type 0) (k : IsKept Rel)
    (spawn-Rel : (conf_fn : Text) (start fin : Option Text) (s : Scrape W)
      → Safely (Rel s) (spawn conf_fn start fin s)) where
  act-Rel :
      (p : Pcre R) (x : Bool × Scrape W)
      → Safely (Rel x.1) (act pcre_exec match_end named popen spawn p x)
  act-Rel p (true, s) = k.same s
  act-Rel p (false, s) =
      then_Rel Rel k s (run_triggers popen p.trigger s) _ (run_triggers-Rel Rel k popen p.trigger s)
        (run_newspiders-Rel Rel k spawn spawn-Rel p.ns)

  checked-Rel :
      (uniq : Option Text) (s0 s1 : Scrape W)
      → Rel s0 s1
      → Safely (λ (x : Bool × Scrape W). Rel s0 x.1) (check_uniq uniq s1)
  checked-Rel uniq s0 s1 h =
      Safely-map (λ (x : Bool × Scrape W). Rel s1 x.1) _ (check_uniq uniq s1)
        (λ x m. k.next s0 s1 x.1 h m) (check_uniq-Rel Rel k uniq s1)

  acted-Rel :
      (p : Pcre R) (s0 : Scrape W) (x : Bool × Scrape W)
      → Rel s0 x.1
      → Safely (Rel s0) (act pcre_exec match_end named popen spawn p x)
  acted-Rel p s0 x h =
      Safely-map (Rel x.1) (Rel s0) (act pcre_exec match_end named popen spawn p x)
        (λ t m. k.next s0 x.1 t h m) (act-Rel p x)

  match_round-Rel :
      (p : Pcre R) (re : R) (subject : Text) (m : M) (s : Scrape W)
      → Safely (Rel s) (match_round pcre_exec match_end named popen spawn p re subject m s)
  unfolding match_round
  match_round-Rel p re subject m s =
      let s0 = begin_record p.json_new s in
      Safely-bind (Rel s0) (Rel s) (captures (named re m subject) p.sfcap s0) _
        (captures-Rel Rel k (named re m subject) p.sfcap s0)
        (λ s1 h1.
          Safely-bind (λ (x : Bool × Scrape W). Rel s0 x.1) (Rel s) (check_uniq p.uniq s1) _
            (checked-Rel p.uniq s0 s1 h1)
            (λ x h2.
              Safely-bind (Rel s0) (Rel s) (act pcre_exec match_end named popen spawn p x) _
                (acted-Rel p s0 x h2) (λ s2. k.wrapped p.json_new s s2)))

  abbrev After : Scrape W → Subjects × Scrape W → Type 0
  After s x = Rel s x.1

  on_match-Rel :
      (next : Subjects → Scrape W → Result (Subjects × Scrape W)) (p : Pcre R) (re : R)
      (subject : Text) (subs : Subjects) (s : Scrape W) (o : Option M)
      → ((subs : Subjects) (s : Scrape W) → Safely (After s) (next subs s))
      → Safely (After s) (on_match pcre_exec match_end named popen spawn next p re subject subs s o)
  on_match-Rel next p re subject subs s none h = forget-Rel Rel k p.sfcap s
  on_match-Rel next p re subject subs s (some m) h =
      Safely-bind (Rel s) (After s)
        (match_round pcre_exec match_end named popen spawn p re subject m s) _
        (match_round-Rel p re subject m s)
        (λ s' r. Safely-map (After s') (After s) _ (λ x. k.next s s' x.1 r) (h _ s'))

  search_in-Rel :
      (next : Subjects → Scrape W → Result (Subjects × Scrape W)) (p : Pcre R) (re : R)
      (subs : Subjects) (s : Scrape W) (subject : Option Text)
      → ((subs : Subjects) (s : Scrape W) → Safely (After s) (next subs s))
      → Safely (After s) (search_in pcre_exec match_end named popen spawn next p re subs s subject)
  search_in-Rel next p re subs s none h = forget-Rel Rel k p.sfcap s
  search_in-Rel next p re subs s (some subject) h =
      on_match-Rel next p re subject subs s (pcre_exec re subject) h

  repeat_loop-Rel :
      (n : ℕ) (p : Pcre R) (re : R) (subs : Subjects) (s : Scrape W)
      → Safely (After s) (repeat_loop pcre_exec match_end named popen spawn n p re subs s)
  unfolding repeat_loop
  repeat_loop-Rel zero p re subs s = k.same s
  repeat_loop-Rel (suc n) p re subs s =
      Safely-bind (λ (t : Option Text). Unit {0}) (After s) (read_subject (select (which p) subs)) _
        (read_ends (select (which p) subs))
        (λ subject h. search_in-Rel _ p re subs s subject (repeat_loop-Rel n p re))

  one_pcre-Rel :
      (next : Subjects → Scrape W → Result (Scrape W)) (p : Pcre R) (re : Option R)
      (subs : Subjects) (s : Scrape W)
      → ((subs : Subjects) (s : Scrape W) → Safely (Rel s) (next subs s))
      → Safely (Rel s) (one_pcre pcre_exec match_end named popen spawn next p re subs s)
  one_pcre-Rel next p none subs s h = k.same s
  one_pcre-Rel next p (some re) subs s h =
      Safely-bind (After s) (Rel s)
        (repeat_loop pcre_exec match_end named popen spawn (pos_part p.repeat) p re subs s) _
        (repeat_loop-Rel (pos_part p.repeat) p re subs s)
        (λ x r. Safely-map (Rel x.1) (Rel s) _ (λ t. k.next s x.1 t r) (h x.0 x.1))

  pcre_loop-Rel :
      (ps : List (Pcre R)) (subs : Subjects) (s : Scrape W)
      → Safely (Rel s) (pcre_loop pcre_exec match_end named popen spawn ps subs s)
  unfolding pcre_loop
  pcre_loop-Rel [] subs s = k.same s
  pcre_loop-Rel (p ∷ ps) subs s = one_pcre-Rel _ p p.re subs s (pcre_loop-Rel ps)

  pub perform-Rel :
      (p : Policy R) (url : Text) (buf hdrbuf : Subject) (s : Scrape W)
      → Safely (Rel s) (sf_pcre_perform pcre_exec match_end named popen spawn p url buf hdrbuf s)
  unfolding sf_pcre_perform
  perform-Rel p url buf hdrbuf s = pcre_loop-Rel p.pcre_root _ s
