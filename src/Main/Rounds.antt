-- ===== src/Main/Rounds.antt =====
-- A round of the inner loop of `sf_proc_start_spider` for one spider.
use spiderframe.Base.{
  ℕ, suc, ◌+◌, ◌<◌, ◌≡◌, refl, sym, ap, ◌∙◌, subst⁻¹, ltb→lt, or_true, and_false, length-append,
  ◌≤◌, arith, ◌⊎◌, inl, inr, Bool, true, false, not, ◌&&◌, ◌||◌, Option, none, some, List, [], ◌∷◌,
  ◌++◌, Text, length, length-set, set, if◌then◌else◌, ◌==◌,
}
use spiderframe.Base.Int.{ℤ, pos_part, neg_part, ltb_ℤ, suc_ℤ, abs, is_zero}
use spiderframe.Base.Result.{Result, ok, ◌>>=◌, Surely, Surely-bind, Surely-map}
use spiderframe.Conf.{Conf}
use spiderframe.Confset.{sf_do_checkpoint}
use spiderframe.Main.Crawl.{
  Crawl, Vars, Parts, url_size, fits, sf_all_spiders_eof, set_eof, with_rest, with_suffix,
  report_failure, is_done, checkpoint, go_on, page, downloaded, in_pool,
}
use spiderframe.Main.Grows.{
  Grows, Behaves, lines_left, suc_ℤ_lem, fits-Surely, trans-Grows, rest-Grows, eof-Grows,
  checkpoint-Grows, page-Grows,
}

-- How a round goes on: the loops are to be left, or fewer lines are left.
unfoldable pub Broke : {R S : Type 0} → Conf R → Crawl S → Bool → Crawl S → Type 0
Broke conf c done c' =
    (length c'.eof ≡ 1)
    × ((done ≡ true)
        ⊎ (sf_all_spiders_eof c'.eof ≡ true)
        ⊎ (lines_left conf.url_count c'.line < lines_left conf.url_count c.line))

-- A line was read.
pub record Later {S : Type 0} (c c' : Crawl S) : Type 0 where
  pub lines : pos_part c.line + neg_part c'.line < pos_part c'.line + neg_part c.line
  pub spiders : length c'.eof ≡ length c.eof

pub all_eof-set : (eof : List Bool) → length eof ≡ 1 → sf_all_spiders_eof (set eof 0 true) ≡ true
unfolding sf_all_spiders_eof
all_eof-set [] h = absurd (omega arith)
all_eof-set (b ∷ []) h = refl
all_eof-set (b ∷ b2 ∷ bs) h = absurd (omega arith)

module _ {R S M : Type 0} (pcre_exec : R → Text → Option M) (parts : Parts R S) (conf : Conf R)
    (behaves : Behaves parts conf) where
  Later-Grows : (c c1 c2 : Crawl S) → Later c c1 → Grows c1 c2 → Later c c2
  Later-Grows c c1 c2 l g = record {
    lines = omega (arith, l.lines, g.lines);
    spiders = g.spiders ∙ l.spiders;
  }

  pub read-Later : (c : Crawl S) (s : S) → Later c (record c { line = suc_ℤ c.line; rest = s })
  read-Later c s = record { lines = omega (arith, suc_ℤ_lem c.line); spiders = refl }

  abbrev pub done_at : Vars → Crawl S → Bool
  done_at v c = is_done pcre_exec parts conf none 0 v c

  Later-fewer :
      (c c' : Crawl S)
      → Later c c'
      → ltb_ℤ c'.line conf.url_count ≡ true
      → lines_left conf.url_count c'.line < lines_left conf.url_count c.line
  Later-fewer c c' l e = omega (arith, l.lines, ltb→lt _ _ e)

  -- After a line was read the count is reached, or fewer lines are left.
  Later-Broke :
      (v : Vars) (c c' : Crawl S) → length c.eof ≡ 1 → Later c c' → Broke conf c (done_at v c') c'
  unfolding Broke
  Later-Broke v c c' one l = (l.spiders ∙ one, by_count (ltb_ℤ c'.line conf.url_count) refl)
    where
      by_count :
          (b : Bool)
          → ltb_ℤ c'.line conf.url_count ≡ b
          → (ltb_ℤ conf.url_level v.level || not (ltb_ℤ c'.line conf.url_count) ≡ true)
            ⊎ (sf_all_spiders_eof c'.eof ≡ true)
            ⊎ (lines_left conf.url_count c'.line < lines_left conf.url_count c.line)
      by_count true e = inr (inr (Later-fewer c c' l e))
      by_count false e = inl (
          ap (λ b. ltb_ℤ conf.url_level v.level || not b) e
          ∙ or_true (ltb_ℤ conf.url_level v.level))

  not_done : (v : Vars) (c : Crawl S) → done_at v c ≡ false → ltb_ℤ c.line conf.url_count ≡ true
  not_done v c h = by_tests (ltb_ℤ conf.url_level v.level) (ltb_ℤ c.line conf.url_count) h
    where
      by_tests : (a b : Bool) → (a || not b) ≡ false → b ≡ true
      by_tests a true h = refl
      by_tests true false h = sym h
      by_tests false false h = sym h

  checkpoint-line : (c : Crawl S) → (checkpoint pcre_exec parts conf none 0 c).line ≡ c.line
  checkpoint-line c = by_test (sf_do_checkpoint (abs c.line) == 0)
    where
      by_test :
          (b : Bool)
          → (if b
              then c
              else with_rest pcre_exec parts conf none 0 (parts.save_chkpoint c.line c.rest) c).line
            ≡ c.line
      by_test true = refl
      by_test false = refl

  -- Fewer lines are left than at an earlier state.
  Broke-before :
      (c c1 c2 : Crawl S) (b : Bool)
      → lines_left conf.url_count c1.line < lines_left conf.url_count c.line
      → Broke conf c1 b c2
      → Broke conf c b c2
  unfolding Broke
  Broke-before c c1 c2 b lt (one, inl d) = (one, inl d)
  Broke-before c c1 c2 b lt (one, inr (inl d)) = (one, inr (inl d))
  Broke-before c c1 c2 b lt (one, inr (inr d)) = (one, inr (inr (omega arith)))

  -- What a call of the inner loop is to do, with fuel for the lines that are left.
  unfoldable pub Loop : ℕ → (Vars → Crawl S → Result (Vars × Crawl S)) → Type 0
  Loop k next =
      (v : Vars) (c : Crawl S)
      → length c.eof ≡ 1
      → lines_left conf.url_count c.line < k
      → Surely (λ (x : Vars × Crawl S). Broke conf c (done_at x.0 x.1) x.1) (next v c)

  go_on-Broke :
      (k : ℕ) (next : Vars → Crawl S → Result (Vars × Crawl S)) (v : Vars) (c c' : Crawl S)
      → Loop k next
      → length c.eof ≡ 1
      → lines_left conf.url_count c.line < suc k
      → Later c c'
      → Surely
          (λ (x : Vars × Crawl S). Broke conf c (done_at x.0 x.1) x.1)
          (go_on pcre_exec parts conf none 0 next v c')
  unfolding Loop Broke
  go_on-Broke k next v c c' h one lt l = by_done (done_at v c') refl
    where
      by_done :
          (b : Bool)
          → done_at v c' ≡ b
          → Surely
              (λ (x : Vars × Crawl S). Broke conf c (done_at x.0 x.1) x.1)
              (if b
                then ok (v, set_eof pcre_exec parts conf none 0 true c')
                else next v (checkpoint pcre_exec parts conf none 0 c'))
      by_done true e = (length-set c'.eof 0 true ∙ l.spiders ∙ one, inl e)
      by_done false e =
          let c1 = checkpoint pcre_exec parts conf none 0 c' in
          let g = checkpoint-Grows pcre_exec parts conf behaves c' in
          let fewer : lines_left conf.url_count c1.line < lines_left conf.url_count c.line =
            subst⁻¹ (λ (n : ℤ). lines_left conf.url_count n < lines_left conf.url_count c.line)
              (checkpoint-line c') (Later-fewer c c' l (not_done v c' e)) in
          Surely-map (λ (x : Vars × Crawl S). Broke conf c1 (done_at x.0 x.1) x.1) _ (next v c1)
            (λ x. Broke-before c c1 x.1 (done_at x.0 x.1) fewer)
            (h v c1 (g.spiders ∙ l.spiders ∙ one) (omega arith))

  -- The result of a round, as `Surely` states it.
  abbrev pub BrokeFrom : Crawl S → Vars × Crawl S → Type 0
  BrokeFrom c x = Broke conf c (done_at x.0 x.1) x.1

  module _ (k : ℕ) (next : Vars → Crawl S → Result (Vars × Crawl S)) (h : Loop k next) where
    downloaded-Broke :
        (backup_url : Text) (v : Vars) (c c' : Crawl S) (got : Bool)
        → length c.eof ≡ 1
        → lines_left conf.url_count c.line < suc k
        → Later c c'
        → (not got && not (is_zero conf.url_feedback)) ≡ false
        → Surely (BrokeFrom c) (downloaded pcre_exec parts conf none 0 next backup_url v c' got)
    downloaded-Broke backup_url v c c' got one lt l reported =
        by_test (not got && not (is_zero conf.url_feedback)) reported
      where
        by_test :
            (b : Bool)
            → b ≡ false
            → Surely (BrokeFrom c) (
                if b
                then (report_failure pcre_exec parts conf none 0 backup_url c' >>= λ c2. ok (v, c2))
                else (page pcre_exec parts conf none 0 backup_url v c' >>= λ c2.
                    go_on pcre_exec parts conf none 0 next v c2))
        by_test true e = ground arith
        by_test false e =
            Surely-bind (Grows c') (BrokeFrom c) (page pcre_exec parts conf none 0 backup_url v c')
              _ (page-Grows pcre_exec parts conf behaves backup_url v c')
              (λ c2 g. go_on-Broke k next v c c2 h one lt (Later-Grows c c' c2 l g))

    not_reported :
        (url : Text) (s : S) → (not (parts.curl url s).0 && not (is_zero conf.url_feedback)) ≡ false
    not_reported url s = by_case behaves.fetched
      where
        by_case :
            (is_zero conf.url_feedback ≡ true)
              ⊎ ((url : Text) (s : S) → (parts.curl url s).0 ≡ true)
            → (not (parts.curl url s).0 && not (is_zero conf.url_feedback)) ≡ false
        by_case (inl z) =
            ap (λ b. not (parts.curl url s).0 && not b) z ∙ and_false (not (parts.curl url s).0)
        by_case (inr got) = ap (λ b. not b && not (is_zero conf.url_feedback)) (got url s)

    with_suffix-Surely :
        (e : Option Text) (v : Vars) (s : S)
        → length v.url ≤ behaves.longest
        → Surely (λ (w : Vars). Unit {0}) (with_suffix pcre_exec parts conf none 0 e v s)
    with_suffix-Surely none v s le = tt
    with_suffix-Surely (some e) v s le =
        Surely-bind (λ (t : Text). behaves.longest + length t < url_size) (λ (w : Vars). Unit {0})
          (parts.suffix e s) _ (behaves.suffix_fits e s)
          (λ t lt.
            Surely-bind (λ (u : Text). u ≡ v.url ++ t) (λ (w : Vars). Unit {0}) (fits (v.url ++ t))
              _ (fits-Surely (v.url ++ t) (omega (arith, length-append v.url t))) (λ w u. tt))

    pub in_pool-Broke :
        (v : Vars) (c c' : Crawl S) (pool : Bool × S)
        → length c.eof ≡ 1
        → lines_left conf.url_count c.line < suc k
        → Later c c'
        → length v.url ≤ behaves.longest
        → Surely (BrokeFrom c) (in_pool pcre_exec parts conf none 0 next v c' pool)
    in_pool-Broke v c c' (false, s) one lt l le =
        Later-Broke v c _ one (Later-Grows c c' _ l (rest-Grows pcre_exec parts conf behaves c' s))
    in_pool-Broke v c c' (true, s) one lt l le =
        let c0 = with_rest pcre_exec parts conf none 0 s c' in
        let c1 = set_eof pcre_exec parts conf none 0 false c0 in
        let g =
          trans-Grows pcre_exec parts conf behaves c' c0 c1
            (rest-Grows pcre_exec parts conf behaves c' s)
            (eof-Grows pcre_exec parts conf behaves false c0) in
        Surely-bind (λ (w : Vars). Unit {0}) (BrokeFrom c)
          (with_suffix pcre_exec parts conf none 0 conf.url_suffix v c1.rest) _
          (with_suffix-Surely conf.url_suffix v c1.rest le)
          (λ v' u.
            let s2 = (parts.curl v'.url c1.rest).1 in
            let c2 = with_rest pcre_exec parts conf none 0 s2 c1 in
            downloaded-Broke v.url v' c c2 (parts.curl v'.url c1.rest).0 one lt
              (Later-Grows c c' c2 l (
                trans-Grows pcre_exec parts conf behaves c' c1 c2 g
                  (rest-Grows pcre_exec parts conf behaves c1 s2)))
              (not_reported v'.url c1.rest))
