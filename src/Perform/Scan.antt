-- ===== src/Perform/Scan.antt =====
-- What the loops of `sf_pcre_perform` on a page are compared with: the list of the matches.
use spiderframe.Base.{
  ℕ, zero, suc, ◌≡◌, Bool, true, false, Option, none, some, List, [], ◌∷◌, Text, length, drop,
  if◌then◌else◌,
}
use spiderframe.Base.Int.{pos_part}
use spiderframe.Base.Result.{Result, ok, ◌>>=◌}
use spiderframe.Policy.{Pcre}
use spiderframe.Perform.{Subject, Subjects, on_buf, which, match_round}
use spiderframe.Perform.Record.{Scrape, Spawn, forget}

-- The whole of a text.
abbrev pub whole : Text → Subject
whole t = record { rest = t; len = length t }

abbrev pub on_page : Subjects → Text → Subjects
on_page subs t = record subs { buf = whole t }

-- No pattern is searched for in the URL or in the header.
unfoldable pub OnPage : {R : Type 0} → List (Pcre R) → Type 0
OnPage [] = Unit
OnPage (p ∷ ps) = (which p ≡ on_buf) × OnPage ps

module _ {R M W : Type 0} (pcre_exec : R → Text → Option M) (match_end : M → ℕ)
    (named : R → M → Text → Text → Option Text) (popen : Text → W → Option Text × W)
    (spawn : Spawn W) where
  abbrev pub next_text : Pcre R → M → Text → Text
  next_text p m t = if p.movetoend then drop (match_end m) t else t

  abbrev pub matches_from : (Text → List (Text × M)) → Pcre R → Text → Option M → List (Text × M)
  matches_from more p t none = []
  matches_from more p t (some m) = (t, m) ∷ more (next_text p m t)

  -- At most `n` matches, each with the text in which it was found.
  unfoldable pub matches : ℕ → Pcre R → R → Text → List (Text × M)
  matches zero p re t = []
  matches (suc n) p re t = matches_from (matches n p re) p t (pcre_exec re t)

  -- The text behind them.
  unfoldable pub behind : Pcre R → List (Text × M) → Text → Text
  behind p [] t = t
  behind p ((u, m) ∷ found) t = behind p found (next_text p m u)

  -- The body of the loop for each of them.
  unfoldable pub rounds : Pcre R → R → List (Text × M) → Scrape W → Result (Scrape W)
  rounds p re [] s = ok s
  rounds p re ((t, m) ∷ found) s = do
    s' ← match_round pcre_exec match_end named popen spawn p re t m s
    rounds p re found s'

  unfoldable pub fewer : List (Text × M) → ℕ → Bool
  fewer found zero = false
  fewer [] (suc n) = true
  fewer (x ∷ found) (suc n) = fewer found n

  -- Fewer matches than the pattern may have: its variables are forgotten.
  abbrev pub settled : Pcre R → ℕ → List (Text × M) → Scrape W → Scrape W
  settled p n found s = if fewer found n then forget p.sfcap s else s

  abbrev pub scan_one :
      (Text → Scrape W → Result (Scrape W))
      → Pcre R
      → Option R
      → Text
      → Scrape W
      → Result (Scrape W)
  scan_one next p none t s = ok s
  scan_one next p (some re) t s = do
    let n = pos_part p.repeat
    let found = matches n p re t
    s' ← rounds p re found s
    next (behind p found t) (settled p n found s')

  -- Pattern after pattern, each from where the one before it stopped.
  unfoldable pub scan_all : List (Pcre R) → Text → Scrape W → Result (Scrape W)
  scan_all [] t s = ok s
  scan_all (p ∷ ps) t s = scan_one (scan_all ps) p p.re t s
