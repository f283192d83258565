-- ===== src/Perform/Matches.antt =====
-- The loops of `sf_pcre_perform` on a page, against the list of the matches.
use spiderframe.Base.{
  length-drop, ℕ, zero, suc, ◌+◌, ◌-◌, ◌%◌, ◌^◌, ◌≤◌, ◌<◌, ◌≡◌, refl, sym, ap, ◌∙◌, arith, Bool,
  true, false, Option, none, some, List, [], ◌∷◌, Text, length, ltb, take, drop, take_all, lt→ltb,
  subst⁻¹, if◌then◌else◌,
}
use spiderframe.Base.Int.{pos_part}
use spiderframe.Base.Result.{Result, ok, undefined, ◌>>=◌, bind-cong, bind_assoc}
use spiderframe.Policy.{Pcre, Policy}
use spiderframe.Perform.{
  Subject, Subjects, on_buf, which, select, advance, read_subject, match_round, on_match, search_in,
  repeat_loop, one_pcre, pcre_loop, subjects_of, sf_pcre_perform,
}
use spiderframe.Perform.Record.{Scrape, Spawn}
use spiderframe.Perform.Scan.{
  whole, on_page, OnPage, next_text, matches_from, matches, behind, rounds, fewer, settled,
  scan_one, scan_all,
}

ltb_irrefl : (n : ℕ) → ltb n n ≡ false
ltb_irrefl n = ground arith

int_of : (n : ℕ) → n < 2 ^ 31 → n % 2 ^ 32 ≡ n
int_of n small = omega arith

pub wrapped_sub : (a b : ℕ) → b ≤ a → a < 2 ^ 64 → (2 ^ 64 + a - b) % 2 ^ 64 ≡ a - b
wrapped_sub a b le lt = omega arith

pub read_subject-within :
    (sub : Subject)
    → sub.len < 2 ^ 31
    → read_subject sub
      ≡ (if ltb (length sub.rest) sub.len then undefined else ok (some (take sub.len sub.rest)))
unfolding read_subject
read_subject-within sub small =
    ap
      (λ n.
        if ltb n (2 ^ 31)
        then (if ltb (length sub.rest) n then undefined else ok (some (take n sub.rest)))
        else ok none)
      (int_of sub.len small)
    ∙ ap
        (λ b.
          if b
          then (if ltb (length sub.rest) sub.len
              then undefined
              else ok (some (take sub.len sub.rest)))
          else ok none)
        (lt→ltb sub.len (2 ^ 31) small)

pub read_subject-whole : (t : Text) → length t < 2 ^ 31 → read_subject (whole t) ≡ ok (some t)
read_subject-whole t small =
    read_subject-within (whole t) small
    ∙ subst⁻¹ (λ b. (if b then undefined else ok (some (take (length t) t))) ≡ ok (some t))
        (ltb_irrefl (length t)) (ap (λ (u : Text). ok (some u)) (take_all t))

moved-whole :
    (t : Text) (end : ℕ)
    → end ≤ length t
    → length t < 2 ^ 64
    → (2 ^ 64 + length t - end) % 2 ^ 64 ≡ length (drop end t)
moved-whole t end le lt = wrapped_sub (length t) end le lt ∙ sym (length-drop end t)

module _ {R M W : Type 0} (pcre_exec : R → Text → Option M) (match_end : M → ℕ)
    (named : R → M → Text → Text → Option Text) (popen : Text → W → Option Text × W)
    (spawn : Spawn W) where
  module _
      (ends : (re : R) (t : Text) (m : M) → pcre_exec re t ≡ some m → match_end m ≤ length t) where
    advance-on_page :
        (p : Pcre R) (subs : Subjects) (t : Text) (m : M)
        → which p ≡ on_buf
        → match_end m ≤ length t
        → length t < 2 ^ 31
        → (if p.movetoend then advance (which p) (match_end m) (on_page subs t) else on_page subs t)
          ≡ on_page subs (next_text pcre_exec match_end named popen spawn p m t)
    unfolding advance
    advance-on_page p subs t m w le lt = by_flag p.movetoend
      where
        by_flag :
            (b : Bool)
            → (if b then advance (which p) (match_end m) (on_page subs t) else on_page subs t)
              ≡ on_page subs (if b then drop (match_end m) t else t)
        by_flag true =
            ap (λ w. advance w (match_end m) (on_page subs t)) w
            ∙ ap (λ (n : ℕ). record subs { buf = record { rest = drop (match_end m) t; len = n } })
                (moved-whole t (match_end m) le (omega arith))
        by_flag false = refl

    next_text-lt :
        (p : Pcre R) (m : M) (t : Text)
        → length t < 2 ^ 31
        → length (next_text pcre_exec match_end named popen spawn p m t) < 2 ^ 31
    next_text-lt p m t lt = by_flag p.movetoend
      where
        by_flag : (b : Bool) → length (if b then drop (match_end m) t else t) < 2 ^ 31
        by_flag true = omega (arith, length-drop (match_end m) t)
        by_flag false = lt

    behind-lt :
        (n : ℕ) (p : Pcre R) (re : R) (t : Text)
        → length t < 2 ^ 31
        → length (
            behind pcre_exec match_end named popen spawn p
              (matches pcre_exec match_end named popen spawn n p re t)
              t)
          < 2 ^ 31
    unfolding matches behind
    behind-lt zero p re t lt = lt
    behind-lt (suc n) p re t lt = by_match (behind-lt n p re) (pcre_exec re t)
      where
        by_match :
            ((u : Text)
              → length u < 2 ^ 31
              → length (
                  behind pcre_exec match_end named popen spawn p
                    (matches pcre_exec match_end named popen spawn n p re u)
                    u)
                < 2 ^ 31)
            → (o : Option M)
            → length (
                behind pcre_exec match_end named popen spawn p
                  (matches_from pcre_exec match_end named popen spawn
                    (matches pcre_exec match_end named popen spawn n p re)
                    p
                    t
                    o)
                  t)
              < 2 ^ 31
        by_match ih none = lt
        by_match ih (some m) =
            ih (next_text pcre_exec match_end named popen spawn p m t) (next_text-lt p m t lt)

    -- The list of the matches run, from the text that they are in.
    abbrev run :
        ℕ → Pcre R → R → Subjects → Text → Scrape W → List (Text × M) → Result (Subjects × Scrape W)
    run n p re subs t s found = rounds pcre_exec match_end named popen spawn p re found s >>= λ s'.
        ok (
          on_page subs (behind pcre_exec match_end named popen spawn p found t),
          settled pcre_exec match_end named popen spawn p n found s',
        )

    -- What `repeat_loop-Rounds` states.
    Rounds : ℕ → Pcre R → R → Subjects → Type 0
    Rounds n p re subs =
        (t : Text) (s : Scrape W)
        → length t < 2 ^ 31
        → repeat_loop pcre_exec match_end named popen spawn n p re (on_page subs t) s
          ≡ run n p re subs t s (matches pcre_exec match_end named popen spawn n p re t)

    on_match-run :
        (n : ℕ) (p : Pcre R) (re : R) (subs : Subjects) (t : Text) (s : Scrape W) (o : Option M)
        → which p ≡ on_buf
        → length t < 2 ^ 31
        → Rounds n p re subs
        → pcre_exec re t ≡ o
        → on_match pcre_exec match_end named popen spawn
            (repeat_loop pcre_exec match_end named popen spawn n p re)
            p
            re
            t
            (on_page subs t)
            s
            o
          ≡ run (suc n) p re subs t s (
              matches_from pcre_exec match_end named popen spawn
                (matches pcre_exec match_end named popen spawn n p re)
                p
                t
                o)
    unfolding Rounds rounds behind fewer
    on_match-run n p re subs t s none w lt ih h = refl
    on_match-run n p re subs t s (some m) w lt ih h =
        let r = match_round pcre_exec match_end named popen spawn p re t m s in
        let found =
          matches pcre_exec match_end named popen spawn n p re
            (next_text pcre_exec match_end named popen spawn p m t) in
        bind-cong r (λ s'.
          ap (λ subs. repeat_loop pcre_exec match_end named popen spawn n p re subs s')
            (advance-on_page p subs t m w (ends re t m h) lt)
          ∙ ih (next_text pcre_exec match_end named popen spawn p m t) s' (next_text-lt p m t lt))
        ∙ sym (
            bind_assoc r (rounds pcre_exec match_end named popen spawn p re found) (λ s'. ok (
              on_page subs (behind pcre_exec match_end named popen spawn p ((t, m) ∷ found) t),
              settled pcre_exec match_end named popen spawn p (suc n) ((t, m) ∷ found) s',
            )))

    repeat_loop-Rounds :
        (n : ℕ) (p : Pcre R) (re : R) (subs : Subjects) → which p ≡ on_buf → Rounds n p re subs
    unfolding Rounds repeat_loop matches rounds behind fewer select
    repeat_loop-Rounds zero p re subs w t s lt = refl
    repeat_loop-Rounds (suc n) p re subs w t s lt =
        ap
          (λ w. read_subject (select w (on_page subs t)) >>= λ subject.
            search_in pcre_exec match_end named popen spawn
              (repeat_loop pcre_exec match_end named popen spawn n p re) p re (on_page subs t) s
              subject)
          w
        ∙ ap
            (λ r. r >>= λ subject.
              search_in pcre_exec match_end named popen spawn
                (repeat_loop pcre_exec match_end named popen spawn n p re) p re (on_page subs t) s
                subject)
            (read_subject-whole t lt)
        ∙ on_match-run n p re subs t s (pcre_exec re t) w lt (repeat_loop-Rounds n p re subs w) refl

    scan_one-Scans :
        (next : Subjects → Scrape W → Result (Scrape W))
        (scan : Text → Scrape W → Result (Scrape W)) (p : Pcre R) (re : Option R) (subs : Subjects)
        (t : Text) (s : Scrape W)
        → which p ≡ on_buf
        → length t < 2 ^ 31
        → ((u : Text) (s : Scrape W) → length u < 2 ^ 31 → next (on_page subs u) s ≡ scan u s)
        → one_pcre pcre_exec match_end named popen spawn next p re (on_page subs t) s
          ≡ scan_one pcre_exec match_end named popen spawn scan p re t s
    unfolding Rounds
    scan_one-Scans next scan p none subs t s w lt h = refl
    scan_one-Scans next scan p (some re) subs t s w lt h =
        let n = pos_part p.repeat in
        let found = matches pcre_exec match_end named popen spawn n p re t in
        ap (λ r. r >>= λ x. next x.0 x.1) (repeat_loop-Rounds n p re subs w t s lt)
        ∙ bind_assoc (rounds pcre_exec match_end named popen spawn p re found s) _ _
        ∙ bind-cong (rounds pcre_exec match_end named popen spawn p re found s) (λ s'.
          h (behind pcre_exec match_end named popen spawn p found t)
            (settled pcre_exec match_end named popen spawn p n found s') (behind-lt n p re t lt))

    pcre_loop-scan_all :
        (ps : List (Pcre R)) (subs : Subjects) (t : Text) (s : Scrape W)
        → OnPage ps
        → length t < 2 ^ 31
        → pcre_loop pcre_exec match_end named popen spawn ps (on_page subs t) s
          ≡ scan_all pcre_exec match_end named popen spawn ps t s
    unfolding pcre_loop scan_all OnPage
    pcre_loop-scan_all [] subs t s w lt = refl
    pcre_loop-scan_all (p ∷ ps) subs t s (w, ws) lt =
        scan_one-Scans _ _ p p.re subs t s w lt (λ u s lt. pcre_loop-scan_all ps subs u s ws lt)

    -- On a page shorter than 2^31 bytes, whose length is no negative `int`, and a policy all of whose
    -- patterns are searched for in the page, when no match that pcre finds ends beyond its subject,
    -- sf_pcre_perform is scan_all: for each pattern in turn it runs
    -- the body of its loop on the successive matches, at most `repeat` of them, each search from the end
    -- of the last match (or, without movetoend, from the same place), forgets the pattern's variables
    -- when there were fewer, and goes on with the next pattern where this one stopped.
    pub perform-scan_all :
        (p : Policy R) (url t : Text) (hdrbuf : Subject) (s : Scrape W)
        → OnPage p.pcre_root
        → length t < 2 ^ 31
        → sf_pcre_perform pcre_exec match_end named popen spawn p url (whole t) hdrbuf s
          ≡ scan_all pcre_exec match_end named popen spawn p.pcre_root t s
    unfolding sf_pcre_perform
    perform-scan_all p url t hdrbuf s w lt =
        pcre_loop-scan_all p.pcre_root
          (subjects_of pcre_exec match_end named popen spawn (whole url) (whole t) hdrbuf) t s w lt
