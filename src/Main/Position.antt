-- ===== src/Main/Position.antt =====
-- How far the file of URLs is read.
use spiderframe.Base.{
  ℕ, zero, suc, ◌+◌, ◌≤◌, ◌<◌, ◌≡◌, refl, sym, ap, ap₂, ◌∙◌, arith, subst, Option, none, some, List,
  [], ◌∷◌, Text, length, drop, lt→ltb, if◌then◌else◌,
}
use spiderframe.Base.Int.{ℤ, pos, pos_part, suc_ℤ}
use spiderframe.Base.Result.{Result, ok, undefined, ◌>>=◌}
use spiderframe.Conf.{Conf}
use spiderframe.Main.Crawl.{
  Scanned, both, Crawl, Vars, Parts, url_size, scanned, sf_global_scan_url,
}
use spiderframe.Main.Start.{sf_global_init, Reads, drop-cons, skip_lines-drop}

abbrev pub Fit : List (ℤ × Text) → Type 0
Fit [] = Unit
Fit ((level, url) ∷ lines) = (length url < url_size) × Fit lines

Fit-drop : (n : ℕ) (lines : List (ℤ × Text)) → Fit lines → Fit (drop n lines)
Fit-drop zero lines f = f
Fit-drop (suc n) [] f = tt
Fit-drop (suc n) (line ∷ lines) f = Fit-drop n lines f.1

module _ {R S M : Type 0} (pcre_exec : R → Text → Option M) (parts : Parts R S) (conf : Conf R)
    (starturl : Option Text) (self : ℕ) where
  abbrev pub scan_next :
      (Vars → Crawl S → Result (Vars × Crawl S))
      → Vars
      → Option Vars × Crawl S
      → Result (Vars × Crawl S)
  scan_next next v (none, c) = ok (v, c)
  scan_next next v (some v', c) = next v' c

  -- So many calls of sf_global_scan_url, up to the end of the file.
  unfoldable pub scan_times : ℕ → Vars → Crawl S → Result (Vars × Crawl S)
  scan_times zero v c = ok (v, c)
  scan_times (suc n) v c = do
    r ← sf_global_scan_url pcre_exec parts conf starturl self v c
    scan_next (scan_times n) v r

  scanned-line :
      (v : Vars) (c : Crawl S) (level : ℤ) (url : Text) (r : Scanned × S)
      → r.0 ≡ both level url
      → length url < url_size
      → scanned pcre_exec parts conf starturl self v c r
        ≡ ok (
          some (record { level = level; url = url }),
          record c { line = suc_ℤ c.line; rest = r.1 },
        )
  scanned-line v c level url (o, s) e lt =
      ap (λ o. scanned pcre_exec parts conf starturl self v c (o, s)) e
      ∙ ap
          (λ b. (if b then ok url else undefined) >>= λ u.
            ok (
              some (record { level = level; url = u }),
              record c { line = suc_ℤ c.line; rest = s },
            ))
          (lt→ltb (length url) url_size lt)

  module _ (unread : S → List (ℤ × Text)) (reads : Reads parts.fscanf unread)
      (lines : List (ℤ × Text)) (small : Fit lines) where
    scan_times-drop :
        (n from : ℕ) (v : Vars) (c : Crawl S)
        → from + n ≤ length lines
        → c.line ≡ pos from
        → unread c.rest ≡ drop from lines
        → (v' : Vars) × (c' : Crawl S) × (scan_times n v c ≡ ok (v', c'))
          × (c'.line ≡ pos (from + n))
          × (unread c'.rest ≡ drop (from + n) lines)
    unfolding scan_times sf_global_scan_url
    scan_times-drop zero from v c le at left =
        (v, c, refl, at ∙ ap pos (plus_zero from), left ∙ ap (λ k. drop k lines) (plus_zero from))
      where
        plus_zero : (k : ℕ) → k ≡ k + 0
        plus_zero k = omega arith
    scan_times-drop (suc n) from v c le at left =
        let (x, e) = drop-cons from lines (omega arith) in
        let (item, after) = reads.at_line c.rest x.0 x.1 (drop (suc from) lines) (left ∙ e) in
        let v1 : Vars = record { level = x.0; url = x.1 } in
        let c1 : Crawl S = record c { line = suc_ℤ c.line; rest = (parts.fscanf c.rest).1 } in
        let lt : length x.1 < url_size = (subst Fit e (Fit-drop from lines small)).0 in
        let (v', c', run, line, rest) =
          scan_times-drop n (suc from) v1 c1 (omega arith) (ap suc_ℤ at) after in
        (
          v',
          c',
          ap (λ r. r >>= scan_next (scan_times n) v)
                (scanned-line v c x.0 x.1 (parts.fscanf c.rest) item lt)
              ∙ run,
          line ∙ ap pos (plus_suc from n),
          rest ∙ ap (λ k. drop k lines) (plus_suc from n),
        )
      where
        plus_suc : (a b : ℕ) → suc a + b ≡ a + suc b
        plus_suc a b = omega arith

    -- On a file whose lines are well formed and whose URLs fit their buffer, which nobody writes to:
    -- when sf_global_init has skipped some lines and sf_global_scan_url has read some more, and the
    -- file has as many, the counter `line` is their number, and the lines behind the first `line`,
    -- which sf_proc_output_unparse reports, are the lines that are not yet read.
    pub scan_times-unread :
        (skipline n spider_cnt : ℕ) (v : Vars) (s : S)
        → skipline + n ≤ length lines
        → unread s ≡ lines
        → ((s : S) → parts.unparsed s ≡ lines)
        → (v' : Vars) × (c' : Crawl S) × (scan_times n v
              (sf_global_init parts.fscanf skipline spider_cnt s)
            ≡ ok (v', c'))
          × (c'.line ≡ pos (skipline + n))
          × (drop (pos_part c'.line) (parts.unparsed c'.rest) ≡ unread c'.rest)
    unfolding sf_global_init
    scan_times-unread skipline n spider_cnt v s le left file =
        let (v', c', run, line, rest) =
          scan_times-drop n skipline v (sf_global_init parts.fscanf skipline spider_cnt s) le refl (
            skip_lines-drop parts.fscanf unread reads skipline 0 lines s (omega arith) left
            ∙ ap (λ k. drop k lines) (zero_plus skipline)) in
        (
          v',
          c',
          run,
          line,
          ap₂ (λ l (f : List (ℤ × Text)). drop (pos_part l) f) line (file c'.rest) ∙ sym rest,
        )
      where
        zero_plus : (k : ℕ) → 0 + k ≡ k
        zero_plus k = omega arith
