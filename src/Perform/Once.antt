-- ===== src/Perform/Once.antt =====
-- What the test for duplicates does to a record, and to a later one with the same string.
use spiderframe.Base.{ℕ, Bool, Option, List, ◌∷◌, Text}
use spiderframe.Base.Result.{Result, ok, ◌>>=◌}
use spiderframe.Policy.{Pcre}
use spiderframe.Perform.{act}
use spiderframe.Perform.Record.{
  Scrape, Spawn, free_print_buf, end_record, run_triggers, run_newspiders,
}

-- The string stands in the table.
pub data Stands (t : Text) : List Text → Type 0 where
  here : (seen : List Text) → Stands t (t ∷ seen)
  there : (u : Text) (seen : List Text) → Stands t seen → Stands t (u ∷ seen)

module _ {R M W : Type 0} (pcre_exec : R → Text → Option M) (match_end : M → ℕ)
    (named : R → M → Text → Text → Option Text) (popen : Text → W → Option Text × W)
    (spawn : Spawn W) where
  -- The rest of a record that is no duplicate: all its triggers, all its new spiders, and its end.
  abbrev pub acted : Pcre R → Scrape W → Result (Scrape W)
  acted p s = do
    s1 ← run_triggers popen p.trigger s
    s2 ← run_newspiders spawn p.ns s1
    ok (end_record p.json_new s2)

  -- What becomes of a record whose string is `t`, when `s` is the state behind its captures.
  pub data Acts (p : Pcre R) (t : Text) (s : Scrape W) : Result (Scrape W) → Type 0 where
    duplicate : Stands t s.seen → Acts p t s (ok (end_record p.json_new (free_print_buf s)))
    fresh : ¬ Stands t s.seen → Acts p t s (acted p (record s { seen = t ∷ s.seen }))

  checked : Pcre R → Bool × Scrape W → Result (Scrape W)
  checked p x =
      act pcre_exec match_end named popen spawn p x >>= λ s2. ok (end_record p.json_new s2)
