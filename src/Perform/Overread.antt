-- ===== src/Perform/Overread.antt =====
-- The length that `sf_pcre_perform` passes behind a match in the URL.
use spiderframe.Base.{
  length-drop, ℕ, suc, ◌^◌, ◌≤◌, ◌<◌, ◌≡◌, refl, ap, ◌∙◌, arith, true, Option, some, List, ◌∷◌,
  Text, length, take, if◌then◌else◌, lt→ltb,
}
use spiderframe.Base.Int.{pos_part}
use spiderframe.Base.Result.{ok, undefined, ◌>>=◌}
use spiderframe.Policy.{Pcre, Policy}
use spiderframe.Perform.{
  Subject, Subjects, on_url, which, select, advance, read_subject, match_round, on_match, search_in,
  repeat_loop, one_pcre, pcre_loop, subjects_of, sf_pcre_perform,
}
use spiderframe.Perform.Record.{Scrape, Spawn}
use spiderframe.Perform.Scan.{whole}
use spiderframe.Perform.Matches.{wrapped_sub, read_subject-whole, read_subject-within}

read_subject-beyond :
    (sub : Subject) → length sub.rest < sub.len → sub.len < 2 ^ 31 → read_subject sub ≡ undefined
read_subject-beyond sub lt small =
    read_subject-within sub small
    ∙ ap (λ b. if b then undefined else ok (some (take sub.len sub.rest)))
        (lt→ltb (length sub.rest) sub.len lt)

module _ {R M W : Type 0} (pcre_exec : R → Text → Option M) (match_end : M → ℕ)
    (named : R → M → Text → Text → Option Text) (popen : Text → W → Option Text × W)
    (spawn : Spawn W) where
  second_round :
      (n : ℕ) (p : Pcre R) (re : R) (subs : Subjects) (s : Scrape W)
      → which p ≡ on_url
      → length subs.url.rest < subs.url.len
      → subs.url.len < 2 ^ 31
      → repeat_loop pcre_exec match_end named popen spawn (suc n) p re subs s ≡ undefined
  unfolding repeat_loop select
  second_round n p re subs s w lt small =
      ap
        (λ w. read_subject (select w subs) >>= λ subject.
          search_in pcre_exec match_end named popen spawn
            (repeat_loop pcre_exec match_end named popen spawn n p re) p re subs s subject)
        w
      ∙ ap
          (λ r. r >>= λ subject.
            search_in pcre_exec match_end named popen spawn
              (repeat_loop pcre_exec match_end named popen spawn n p re) p re subs s subject)
          (read_subject-beyond subs.url lt small)

  advance_url :
      (p : Pcre R) (subs : Subjects) (end : ℕ)
      → which p ≡ on_url
      → p.movetoend ≡ true
      → (if p.movetoend then advance (which p) end subs else subs) ≡ advance on_url end subs
  advance_url p subs end w mv =
      ap (λ b. if b then advance (which p) end subs else subs) mv ∙ ap (λ w. advance w end subs) w

  url_beyond :
      (subs : Subjects) (end : ℕ)
      → end ≤ length subs.url.rest
      → length subs.url.rest < subs.buf.len
      → subs.buf.len < 2 ^ 31
      → (length (advance on_url end subs).url.rest < (advance on_url end subs).url.len)
        × ((advance on_url end subs).url.len < 2 ^ 31)
  unfolding advance
  url_beyond subs end le lt small =
      let e : end ≤ subs.buf.len = omega arith in
      let len = wrapped_sub subs.buf.len end e (omega arith) in
      (omega (arith, len, length-drop end subs.url.rest), omega (arith, len))

  read_url :
      (p : Pcre R) (subs : Subjects) (url : Text)
      → which p ≡ on_url
      → subs.url ≡ whole url
      → length url < 2 ^ 31
      → read_subject (select (which p) subs) ≡ ok (some url)
  unfolding select
  read_url p subs url w h small =
      ap (λ w. read_subject (select w subs)) w ∙ ap read_subject h ∙ read_subject-whole url small

  found_round :
      (n : ℕ) (p : Pcre R) (re : R) (subs : Subjects) (url : Text) (m : M) (s s' : Scrape W)
      → which p ≡ on_url
      → subs.url ≡ whole url
      → length url < 2 ^ 31
      → pcre_exec re url ≡ some m
      → match_round pcre_exec match_end named popen spawn p re url m s ≡ ok s'
      → repeat_loop pcre_exec match_end named popen spawn (suc n) p re subs s
        ≡ repeat_loop pcre_exec match_end named popen spawn n p re
            (if p.movetoend then advance (which p) (match_end m) subs else subs)
            s'
  unfolding repeat_loop
  found_round n p re subs url m s s' w h small found round =
      let next = repeat_loop pcre_exec match_end named popen spawn n p re in
      let on = on_match pcre_exec match_end named popen spawn next p re in
      ap (λ r. r >>= search_in pcre_exec match_end named popen spawn next p re subs s)
        (read_url p subs url w h small)
      ∙ ap (on url subs s) found
      ∙ ap
          (λ r. r >>= λ s'.
            next (if p.movetoend then advance (which p) (match_end m) subs else subs) s')
          round

  -- A pattern that is searched for in the URL, moves to the end of its matches and may match more
  -- than once, first in its policy: when it matches within the URL, the page is longer than the URL and
  -- shorter than 2^31 bytes, and the round for that match returns, then what sf_pcre_perform does is
  -- undefined: the next search is given the length of the page, less the end of the match, and reads
  -- beyond the text of the URL.
  pub perform_overread :
      (pol : Policy R) (p : Pcre R) (ps : List (Pcre R)) (n : ℕ) (re : R) (url : Text)
      (buf hdrbuf : Subject) (m : M) (s s' : Scrape W)
      → pol.pcre_root ≡ p ∷ ps
      → p.re ≡ some re
      → pos_part p.repeat ≡ suc (suc n)
      → which p ≡ on_url
      → p.movetoend ≡ true
      → pcre_exec re url ≡ some m
      → match_end m ≤ length url
      → length url < buf.len
      → buf.len < 2 ^ 31
      → match_round pcre_exec match_end named popen spawn p re url m s ≡ ok s'
      → sf_pcre_perform pcre_exec match_end named popen spawn pol url buf hdrbuf s ≡ undefined
  unfolding sf_pcre_perform pcre_loop
  perform_overread pol p ps n re url buf hdrbuf m s s' root compiled rep w mv found le lt small
        round =
      let subs = subjects_of pcre_exec match_end named popen spawn (whole url) buf hdrbuf in
      let loop = λ (n : ℕ). repeat_loop pcre_exec match_end named popen spawn n p re in
      let next = pcre_loop pcre_exec match_end named popen spawn ps in
      let beyond = url_beyond subs (match_end m) le lt small in
      ap (λ ps. pcre_loop pcre_exec match_end named popen spawn ps subs s) root
      ∙ ap (λ re. one_pcre pcre_exec match_end named popen spawn next p re subs s) compiled
      ∙ ap (λ n. loop n subs s >>= λ x. next x.0 x.1) rep
      ∙ ap (λ r. r >>= λ x. next x.0 x.1)
          (found_round (suc n) p re subs url m s s' w refl (omega arith) found round
            ∙ ap (λ subs. loop (suc n) subs s') (advance_url p subs (match_end m) w mv)
            ∙ second_round n p re (advance on_url (match_end m) subs) s' w beyond.0 beyond.1)
