-- ===== src/Main/Ends.antt =====
-- One spider that reads its URLs from the file comes to an end.
use spiderframe.Base.{
  ℕ, zero, suc, ◌≤◌, ◌<◌, ◌≡◌, ap, ◌∙◌, subst⁻¹, arith, ◌⊎◌, inl, inr, Bool, true, false, not, ◌&&◌,
  Option, none, [], ◌∷◌, Text, length, length-set, if◌then◌else◌,
}
use spiderframe.Base.Int.{pos_part, is_zero}
use spiderframe.Base.Result.{Result, ok, ◌>>=◌, Surely, bind_assoc, Surely-bind, Surely-ok}
use spiderframe.Json.{array_begin, array_end}
use spiderframe.Conf.{Conf}
use spiderframe.Main.Crawl.{
  Scanned, at_eof, nothing, number, both, Crawl, Vars, Parts, fits, sf_all_spiders_eof, print_all,
  scanned, sf_global_scan_url, on_url, url_loop, is_none, sf_proc_output_unparse, spider_loop,
  sf_proc_start_spider,
}
use spiderframe.Main.Grows.{IsLine, Behaves, lines_left, fits-Surely}
use spiderframe.Main.Rounds.{
  Broke, all_eof-set, read-Later, done_at, Loop, BrokeFrom, in_pool-Broke,
}

module _ {R S M : Type 0} (pcre_exec : R → Text → Option M) (parts : Parts R S) (conf : Conf R)
    (behaves : Behaves parts conf) where
  module _ (k : ℕ) (next : Vars → Crawl S → Result (Vars × Crawl S))
      (h : Loop pcre_exec parts conf behaves k next) where
    read-Broke :
        (v : Vars) (c : Crawl S) (r : Scanned × S)
        → IsLine behaves.longest r.0
        → length c.eof ≡ 1
        → lines_left conf.url_count c.line < suc k
        → Surely (BrokeFrom pcre_exec parts conf behaves c) (
            scanned pcre_exec parts conf none 0 v c r >>= on_url pcre_exec parts conf none 0 next v)
    unfolding Broke
    read-Broke v c (at_eof, s) ne one lt =
        (length-set c.eof 0 true ∙ one, inr (inl (all_eof-set c.eof one)))
    read-Broke v c (nothing, s) ne one lt = absurd ne
    read-Broke v c (number n, s) ne one lt = absurd ne
    read-Broke v c (both n u, s) ne one lt =
        subst⁻¹
          (λ (r : Result (Vars × Crawl S)). Surely (BrokeFrom pcre_exec parts conf behaves c) r)
          (bind_assoc (fits u) _ (on_url pcre_exec parts conf none 0 next v))
          (Surely-bind (λ (t : Text). t ≡ u) (BrokeFrom pcre_exec parts conf behaves c) (fits u) _
            (fits-Surely u (omega (arith, behaves.short)))
            (λ t w.
              in_pool-Broke pcre_exec parts conf behaves k next h _ c _ _ one lt
                (read-Later pcre_exec parts conf behaves c s)
                (subst⁻¹ (λ (t : Text). length t ≤ behaves.longest) w ne)))

  url_loop-Broke :
      (k : ℕ) → Loop pcre_exec parts conf behaves k (url_loop pcre_exec parts conf none 0 k)
  unfolding Loop url_loop sf_global_scan_url
  url_loop-Broke zero v c one lt = absurd (omega arith)
  url_loop-Broke (suc k) v c one lt =
      read-Broke k (url_loop pcre_exec parts conf none 0 k) (url_loop-Broke k) v c
        (parts.fscanf c.rest) (behaves.scans c.rest) one lt

  spider_loop-Surely :
      (fuel k : ℕ) (v : Vars) (c : Crawl S)
      → length c.eof ≡ 1
      → lines_left conf.url_count c.line < fuel
      → lines_left conf.url_count c.line < k
      → Surely (λ (c : Crawl S). Unit {0}) (spider_loop pcre_exec parts conf none 0 fuel k v c)
  unfolding spider_loop Broke Loop
  spider_loop-Surely fuel zero v c one lt lt2 = absurd (omega arith)
  spider_loop-Surely fuel (suc k) v c one lt lt2 =
      Surely-bind (BrokeFrom pcre_exec parts conf behaves c) (λ (c : Crawl S). Unit {0})
        (url_loop pcre_exec parts conf none 0 fuel v c) _ (url_loop-Broke fuel v c one lt)
        (λ x b.
          leave-Surely x.0 x.1 (done_at pcre_exec parts conf behaves x.0 x.1)
            (sf_all_spiders_eof x.1.eof) b.1
            (λ fewer. spider_loop-Surely fuel k x.0 x.1 b.0 (omega arith) (omega arith)))
    where
      leave-Surely :
          (v' : Vars) (c' : Crawl S) (d e : Bool)
          → (d ≡ true)
            ⊎ (e ≡ true)
            ⊎ (lines_left conf.url_count c'.line < lines_left conf.url_count c.line)
          → ((lines_left conf.url_count c'.line < lines_left conf.url_count c.line)
              → Surely
                  (λ (c : Crawl S). Unit {0})
                  (spider_loop pcre_exec parts conf none 0 fuel k v' c'))
          → Surely
              (λ (c : Crawl S). Unit {0})
              (if d
                then ok (
                    if is_none pcre_exec parts conf none 0 none && not (is_zero conf.url_feedback)
                    then sf_proc_output_unparse pcre_exec parts conf none 0 (pos_part c'.line) c'
                    else c')
                else if e
                then ok c'
                else spider_loop pcre_exec parts conf none 0 fuel k v' c')
      leave-Surely v' c' true e b rest = tt
      leave-Surely v' c' false true b rest = tt
      leave-Surely v' c' false false (inl h) rest = ground arith
      leave-Surely v' c' false false (inr (inl h)) rest = ground arith
      leave-Surely v' c' false false (inr (inr h)) rest = rest h

  -- One spider, alone in the list of spiders, that reads its URLs from the file: when the lines of
  -- the file are well formed and their URLs fit the buffer with the suffix, failures are not to be
  -- reported or no download fails, and the other parts return and take no line back, then
  -- sf_proc_start_spider returns, with any fuel above the lines that url_count leaves: each of its
  -- loops goes on only after a line was read while the count was not reached.
  pub sf_proc_start_spider_ends :
      (fuel : ℕ) (v : Vars) (c : Crawl S)
      → length c.eof ≡ 1
      → lines_left conf.url_count c.line < fuel
      → (c' : Crawl S) × (sf_proc_start_spider pcre_exec parts conf none 0 fuel v c ≡ ok c')
  unfolding sf_proc_start_spider print_all
  sf_proc_start_spider_ends fuel v c one lt =
      let c0 = print_all pcre_exec parts conf none 0 (array_begin ∷ []) c in
      let (c1, run, u) =
        Surely-ok (λ (c : Crawl S). Unit {0})
          (spider_loop pcre_exec parts conf none 0 fuel fuel v c0)
          (spider_loop-Surely fuel fuel v c0 one lt lt) in
      (
        print_all pcre_exec parts conf none 0 (array_end ∷ []) c1,
        ap (λ r. r >>= λ c'. ok (print_all pcre_exec parts conf none 0 (array_end ∷ []) c')) run,
      )
