-- ===== src/Perform.antt =====
-- `sf_pcre_perform` of sf_pcre.c: the patterns of a policy on a page.
-- pcre is a parameter: the search for a match, the offset at which it ends, and its named substrings.
-- So are popen, and the start of another spider (sf_proc_start_spider), on a world `W` that this
-- function does not read. The variables are the map that Var.Map shows the table to be.
pub mod Record
pub mod Invariant
pub mod Kept
pub mod Scan
pub mod Matches
pub mod Output
pub mod Overread
pub mod Unique
pub mod Once
use spiderframe.Base.{
  ℕ, zero, suc, ◌+◌, ◌-◌, ◌%◌, ◌^◌, Bool, true, false, Option, none, some, List, [], ◌∷◌, Text,
  length, ltb, take, drop, if◌then◌else◌,
}
use spiderframe.Base.Int.{pos_part}
use spiderframe.Base.Result.{Result, ok, undefined, ◌>>=◌}
use spiderframe.Policy.{Newspider, Pcre, Policy}
use spiderframe.Perform.Record.{
  Scrape, Spawn, forget, begin_record, end_record, captures, check_uniq, run_triggers,
  run_newspiders,
}

-- The bytes from a pointer on, and the length that is passed with it.
pub record Subject : Type 0 where
  pub rest : Text
  pub len : ℕ

-- The arguments `url`, `hdrbuf` and `buf` with their lengths, which the function moves.
pub record Subjects : Type 0 where
  pub url : Subject
  pub hdr : Subject
  pub buf : Subject

pub data Which : Type 0 where
  on_url on_hdr on_buf : Which

-- `pbuf` and `pbuflen`
unfoldable pub which : {R : Type 0} → Pcre R → Which
which p = if p.urlmatch then on_url else if p.hdrmatch then on_hdr else on_buf

unfoldable pub select : Which → Subjects → Subject
select on_url subs = subs.url
select on_hdr subs = subs.hdr
select on_buf subs = subs.buf

-- `*pbuf += vector[1]; *pbuflen = buflen - vector[1]`, where `buflen` is that of the page for every
-- subject.
abbrev pub moved : Subject → ℕ → ℕ → Subject
moved sub buflen end = record { rest = drop end sub.rest; len = (2 ^ 64 + buflen - end) % 2 ^ 64 }

unfoldable pub advance : Which → ℕ → Subjects → Subjects
advance on_url end subs = record subs { url = moved subs.url subs.buf.len end }
advance on_hdr end subs = record subs { hdr = moved subs.hdr subs.buf.len end }
advance on_buf end subs = record subs { buf = moved subs.buf subs.buf.len end }

-- What pcre_exec reads. It takes the length as an `int`: one that is negative is an error, `none`.
-- A length beyond the text is a read of bytes that are not determined here: those that an earlier URL
-- left in `char url[2048]` or that were never written, or what stands behind the buffer. All of these
-- are `undefined`.
unfoldable pub read_subject : Subject → Result (Option Text)
read_subject sub =
    let n = sub.len % 2 ^ 32 in
    if ltb n (2 ^ 31)
    then (if ltb (length sub.rest) n then undefined else ok (some (take n sub.rest)))
    else ok none

module _ {R M W : Type 0} (pcre_exec : R → Text → Option M) (match_end : M → ℕ)
    (named : R → M → Text → Text → Option Text) (popen : Text → W → Option Text × W)
    (spawn : Spawn W) where
  -- Triggers and new spiders, unless the record is a duplicate.
  abbrev pub act : Pcre R → Bool × Scrape W → Result (Scrape W)
  act p (true, s) = ok s
  act p (false, s) = do s' ← run_triggers popen p.trigger s; run_newspiders spawn p.ns s'

  -- The body of the loop behind a match `m` in `subject`.
  unfoldable pub match_round : Pcre R → R → Text → M → Scrape W → Result (Scrape W)
  match_round p re subject m s = do
    s1 ← captures (named re m subject) p.sfcap (begin_record p.json_new s)
    checked ← check_uniq p.uniq s1
    s2 ← act p checked
    ok (end_record p.json_new s2)

  abbrev pub on_match :
      (Subjects → Scrape W → Result (Subjects × Scrape W))
      → Pcre R
      → R
      → Text
      → Subjects
      → Scrape W
      → Option M
      → Result (Subjects × Scrape W)
  on_match next p re subject subs s none = ok (subs, forget p.sfcap s)
  on_match next p re subject subs s (some m) = do
    s' ← match_round p re subject m s
    next (if p.movetoend then advance (which p) (match_end m) subs else subs) s'

  abbrev pub search_in :
      (Subjects → Scrape W → Result (Subjects × Scrape W))
      → Pcre R
      → R
      → Subjects
      → Scrape W
      → Option Text
      → Result (Subjects × Scrape W)
  search_in next p re subs s none = ok (subs, forget p.sfcap s)
  search_in next p re subs s (some subject) =
      on_match next p re subject subs s (pcre_exec re subject)

  -- `while (repeat++ < pcre->repeat)`, for as many rounds.
  unfoldable pub repeat_loop : ℕ → Pcre R → R → Subjects → Scrape W → Result (Subjects × Scrape W)
  repeat_loop zero p re subs s = ok (subs, s)
  repeat_loop (suc n) p re subs s = do
    subject ← read_subject (select (which p) subs)
    search_in (repeat_loop n p re) p re subs s subject

  abbrev pub one_pcre :
      (Subjects → Scrape W → Result (Scrape W))
      → Pcre R
      → Option R
      → Subjects
      → Scrape W
      → Result (Scrape W)
  one_pcre next p none subs s = ok s
  one_pcre next p (some re) subs s = do
    (subs', s') ← repeat_loop (pos_part p.repeat) p re subs s
    next subs' s'

  -- The loop over the patterns; one that was not compiled ends it.
  unfoldable pub pcre_loop : List (Pcre R) → Subjects → Scrape W → Result (Scrape W)
  pcre_loop [] subs s = ok s
  pcre_loop (p ∷ ps) subs s = one_pcre (pcre_loop ps) p p.re subs s

  abbrev pub subjects_of : (url buf hdrbuf : Subject) → Subjects
  subjects_of url buf hdrbuf = record { url = url; hdr = hdrbuf; buf = buf }

  unfoldable pub sf_pcre_perform :
      Policy R → (url : Text) → (buf hdrbuf : Subject) → Scrape W → Result (Scrape W)
  sf_pcre_perform p url buf hdrbuf s =
      pcre_loop p.pcre_root (subjects_of (record { rest = url; len = length url }) buf hdrbuf) s
