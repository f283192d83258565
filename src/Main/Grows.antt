-- ===== src/Main/Grows.antt =====
-- What the rounds of `sf_proc_start_spider` keep: no line is taken back.
use spiderframe.Base.{
  ℕ, zero, suc, ◌+◌, ◌-◌, ◌≤◌, ◌≡◌, ◌⊎◌, ◌<◌, lt→ltb, refl, ◌∙◌, arith, Bool, true, false, Option,
  none, List, [], ◌∷◌, Text, bytes, length, ltb, length-set, if◌then◌else◌, ◌==◌,
}
use spiderframe.Base.Int.{ℤ, pos, negsuc, pos_part, neg_part, suc_ℤ, abs, is_zero}
use spiderframe.Base.Result.{ok, undefined, Surely, Surely-bind, Surely-map}
use spiderframe.Json.{Event}
use spiderframe.Policy.{Policy}
use spiderframe.Proc.{sf_proc_url_match_range}
use spiderframe.Conf.{Conf}
use spiderframe.Confset.{sf_do_checkpoint}
use spiderframe.Main.Crawl.{
  Scanned, at_eof, nothing, number, both, Crawl, Vars, Parts, url_size, fits, set_eof, with_rest,
  print_all, feedback_events, report_success, perform_if, policy_loop, checkpoint, page,
}

-- No line is taken back, and no spider joins or leaves.
pub record Grows {S : Type 0} (c c' : Crawl S) : Type 0 where
  pub lines : pos_part c.line + neg_part c'.line ≤ pos_part c'.line + neg_part c.line
  pub spiders : length c'.eof ≡ length c.eof

-- A line of the file has a number and a URL of at most `longest` bytes.
abbrev pub IsLine : ℕ → Scanned → Type 0
IsLine longest at_eof = Unit
IsLine longest nothing = ⊥
IsLine longest (number n) = ⊥
IsLine longest (both n url) = length url ≤ longest

-- What the other parts are to do: they return, and take no line back; the lines of the file are
-- well formed, and a URL fits its buffer with the suffix; and failures are not to be reported, or
-- no download fails.
pub record Behaves {R S : Type 0} (parts : Parts R S) (conf : Conf R) : Type 0 where
  pub longest : ℕ
  pub short : longest < url_size
  pub scans : (s : S) → IsLine longest (parts.fscanf s).0
  pub suffix_fits :
      (e : Text) (s : S) → Surely (λ (t : Text). longest + length t < url_size) (parts.suffix e s)
  pub fetched :
      (is_zero conf.url_feedback ≡ true) ⊎ ((url : Text) (s : S) → (parts.curl url s).0 ≡ true)
  pub href_grows :
      (level : ℤ) (url : Text) (c : Crawl S) → Surely (Grows c) (parts.get_href level url c)
  pub perform_grows :
      (p : Policy R) (url : Text) (c : Crawl S) → Surely (Grows c) (parts.perform p url c)

-- How many lines are left to read.
abbrev pub lines_left : ℤ → ℤ → ℕ
lines_left count line = pos_part count + neg_part line - (pos_part line + neg_part count)

pub suc_ℤ_lem : (a : ℤ) → pos_part (suc_ℤ a) + neg_part a ≡ suc (pos_part a + neg_part (suc_ℤ a))
suc_ℤ_lem (pos n) = omega arith
suc_ℤ_lem (negsuc zero) = omega arith
suc_ℤ_lem (negsuc (suc n)) = omega arith

pub fits-Surely : (t : Text) → length t < url_size → Surely (λ (u : Text). u ≡ t) (fits t)
fits-Surely t lt = by_test (ltb (length t) url_size) (lt→ltb (length t) url_size lt)
  where
    by_test : (b : Bool) → b ≡ true → Surely (λ (u : Text). u ≡ t) (if b then ok t else undefined)
    by_test true h = refl
    by_test false h = ground arith

module _ {R S M : Type 0} (pcre_exec : R → Text → Option M) (parts : Parts R S) (conf : Conf R)
    (behaves : Behaves parts conf) where
  pub refl-Grows : (c : Crawl S) → Grows c c
  refl-Grows c = record { lines = omega arith; spiders = refl }

  pub trans-Grows : (a b c : Crawl S) → Grows a b → Grows b c → Grows a c
  trans-Grows a b c g h = record {
    lines = omega (arith, g.lines, h.lines);
    spiders = h.spiders ∙ g.spiders;
  }

  pub rest-Grows : (c : Crawl S) (s : S) → Grows c (with_rest pcre_exec parts conf none 0 s c)
  rest-Grows c s = record { lines = omega arith; spiders = refl }

  pub eof-Grows : (b : Bool) (c : Crawl S) → Grows c (set_eof pcre_exec parts conf none 0 b c)
  eof-Grows b c = record { lines = omega arith; spiders = length-set c.eof 0 b }

  pub print_all-Grows :
      (es : List Event) (c : Crawl S) → Grows c (print_all pcre_exec parts conf none 0 es c)
  unfolding print_all
  print_all-Grows [] c = refl-Grows c
  print_all-Grows (e ∷ es) c =
      let c1 = with_rest pcre_exec parts conf none 0 (parts.print e c.rest) c in
      trans-Grows c c1 _ (rest-Grows c (parts.print e c.rest)) (print_all-Grows es c1)

  pub checkpoint-Grows : (c : Crawl S) → Grows c (checkpoint pcre_exec parts conf none 0 c)
  checkpoint-Grows c = by_test (sf_do_checkpoint (abs c.line) == 0)
    where
      by_test :
          (b : Bool)
          → Grows c (
              if b
              then c
              else with_rest pcre_exec parts conf none 0 (parts.save_chkpoint c.line c.rest) c)
      by_test true = refl-Grows c
      by_test false = rest-Grows c (parts.save_chkpoint c.line c.rest)

  report_success-Grows :
      (url : Text) (c : Crawl S) → Grows c (report_success pcre_exec parts conf none 0 url c)
  report_success-Grows url c = by_test (is_zero conf.url_feedback)
    where
      by_test :
          (b : Bool)
          → Grows c (
              if b
              then c
              else print_all pcre_exec parts conf none 0
                  (feedback_events pcre_exec parts conf none 0
                    (bytes "success_url")
                    (bytes "url")
                    url)
                  c)
      by_test true = refl-Grows c
      by_test false = print_all-Grows _ c

  perform_if-Grows :
      (b : Bool) (p : Policy R) (url : Text) (c : Crawl S)
      → Surely (Grows c) (perform_if pcre_exec parts conf none 0 b p url c)
  perform_if-Grows true p url c = behaves.perform_grows p url c
  perform_if-Grows false p url c = refl-Grows c

  policy_loop-Grows :
      (ps : List (Policy R)) (url : Text) (c : Crawl S)
      → Surely (Grows c) (policy_loop pcre_exec parts conf none 0 ps url c)
  unfolding policy_loop
  policy_loop-Grows [] url c = refl-Grows c
  policy_loop-Grows (p ∷ ps) url c =
      Surely-bind (Grows c) (Grows c)
        (perform_if pcre_exec parts conf none 0
          (sf_proc_url_match_range pcre_exec url p.policy_range) p url c)
        _ (perform_if-Grows (sf_proc_url_match_range pcre_exec url p.policy_range) p url c)
        (λ c1 g.
          Surely-map (Grows c1) (Grows c) _ (λ c2. trans-Grows c c1 c2 g)
            (policy_loop-Grows ps url c1))

  pub page-Grows :
      (backup_url : Text) (v : Vars) (c : Crawl S)
      → Surely (Grows c) (page pcre_exec parts conf none 0 backup_url v c)
  unfolding page
  page-Grows backup_url v c =
      let c0 = report_success pcre_exec parts conf none 0 backup_url c in
      Surely-bind (Grows c0) (Grows c) (parts.get_href (suc_ℤ v.level) v.url c0) _
        (behaves.href_grows (suc_ℤ v.level) v.url c0)
        (λ c1 g.
          Surely-map (Grows c1) (Grows c) _
            (λ c2. trans-Grows c c1 c2 (trans-Grows c c0 c1 (report_success-Grows backup_url c) g))
            (policy_loop-Grows conf.policy v.url c1))
