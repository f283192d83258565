-- ===== src/Main/Failure.antt =====
-- A download that fails, when failures are to be reported.
use spiderframe.Base.{
  ℕ, suc, ◌<◌, ◌≡◌, refl, ap, ◌∙◌, arith, Bool, true, false, not, ◌&&◌, Option, none, some, [], ◌∷◌,
  Text, length, lt→ltb, if◌then◌else◌,
}
use spiderframe.Base.Int.{ℤ, is_zero, suc_ℤ}
use spiderframe.Base.Result.{Result, ok, undefined, ◌>>=◌}
use spiderframe.Json.{array_begin, array_end}
use spiderframe.Conf.{Conf}
use spiderframe.Main.Crawl.{
  both, Crawl, Vars, Parts, url_size, set_eof, with_rest, print_all, scanned, sf_global_scan_url,
  with_suffix, report_failure, page, go_on, downloaded, in_pool, on_url, url_loop, leave,
  spider_loop, sf_proc_start_spider,
}

module _ {R S M : Type 0} (pcre_exec : R → Text → Option M) (parts : Parts R S) (conf : Conf R)
    (self : ℕ) where
  abbrev Next : Type 0
  Next = Vars → Crawl S → Result (Vars × Crawl S)

  downloaded_failure :
      (next : Next) (backup_url : Text) (v : Vars) (c : Crawl S) (got feedback : Bool)
      → got ≡ false
      → feedback ≡ false
      → (if not got && not feedback
          then (report_failure pcre_exec parts conf none self backup_url c >>= λ c'. ok (v, c'))
          else (page pcre_exec parts conf none self backup_url v c >>= λ c'.
              go_on pcre_exec parts conf none self next v c'))
        ≡ undefined
  downloaded_failure next backup_url v c true feedback g f = ground arith
  downloaded_failure next backup_url v c false true g f = ground arith
  downloaded_failure next backup_url v c false false g f = refl

  in_pool_failure :
      (next : Next) (v : Vars) (c : Crawl S) (pool : Bool × S)
      → pool.0 ≡ true
      → conf.url_suffix ≡ none
      → is_zero conf.url_feedback ≡ false
      → (parts.curl v.url pool.1).0 ≡ false
      → in_pool pcre_exec parts conf none self next v c pool ≡ undefined
  in_pool_failure next v c (false, s) h e f g = ground arith
  in_pool_failure next v c (true, s) h e f g =
      let c1 =
        set_eof pcre_exec parts conf none self false
          (with_rest pcre_exec parts conf none self s c) in
      ap
        (λ o. with_suffix pcre_exec parts conf none self o v c1.rest >>= λ v'.
          downloaded pcre_exec parts conf none self next v.url v'
            (with_rest pcre_exec parts conf none self (parts.curl v'.url c1.rest).1 c1)
            (parts.curl v'.url c1.rest).0)
        e
      ∙ downloaded_failure next v.url v
          (with_rest pcre_exec parts conf none self (parts.curl v.url s).1 c1)
          (parts.curl v.url s).0 (is_zero conf.url_feedback) g f

  read_failure :
      (next : Next) (v : Vars) (c : Crawl S) (level : ℤ) (url : Text) (s : S)
      → length url < url_size
      → conf.url_suffix ≡ none
      → is_zero conf.url_feedback ≡ false
      → (parts.create_pool s).0 ≡ true
      → (parts.curl url (parts.create_pool s).1).0 ≡ false
      → (scanned pcre_exec parts conf none self v c (both level url, s)
          >>= on_url pcre_exec parts conf none self next v)
        ≡ undefined
  read_failure next v c level url s small e f p g =
      ap
        (λ b.
          ((if b then ok url else undefined) >>= λ u.
          ok (some (record { level = level; url = u }), record c { line = suc_ℤ c.line; rest = s }))
          >>= on_url pcre_exec parts conf none self next v)
        (lt→ltb (length url) url_size small)
      ∙ in_pool_failure next (record { level = level; url = url })
          (record c { line = suc_ℤ c.line; rest = s }) (parts.create_pool s) p e f g

  -- When url_feedback is set, no suffix is, the first line read has a level and a URL that fits its
  -- buffer, there is memory, and the download of that URL fails, then sf_proc_start_spider does what
  -- C leaves undefined: for the record of the failure it prints the key "url" with the length of
  -- "fail_url", beyond the end of the literal.
  pub start_spider_failure :
      (fuel : ℕ) (v : Vars) (c : Crawl S) (level : ℤ) (url : Text) (s : S)
      → parts.fscanf (parts.print array_begin c.rest) ≡ (both level url, s)
      → length url < url_size
      → conf.url_suffix ≡ none
      → is_zero conf.url_feedback ≡ false
      → (parts.create_pool s).0 ≡ true
      → (parts.curl url (parts.create_pool s).1).0 ≡ false
      → sf_proc_start_spider pcre_exec parts conf none self (suc fuel) v c ≡ undefined
  unfolding sf_proc_start_spider spider_loop url_loop sf_global_scan_url print_all
  start_spider_failure fuel v c level url s line small e f p g =
      let c0 = print_all pcre_exec parts conf none self (array_begin ∷ []) c in
      ap
        (λ r.
          ((scanned pcre_exec parts conf none self v c0 r
              >>= on_url pcre_exec parts conf none self
                  (url_loop pcre_exec parts conf none self fuel) v)
            >>= leave pcre_exec parts conf none self
                (spider_loop pcre_exec parts conf none self (suc fuel) fuel))
          >>= λ c'. ok (print_all pcre_exec parts conf none self (array_end ∷ []) c'))
        line
      ∙ ap
          (λ r.
            (r
              >>= leave pcre_exec parts conf none self
                  (spider_loop pcre_exec parts conf none self (suc fuel) fuel))
            >>= λ c'. ok (print_all pcre_exec parts conf none self (array_end ∷ []) c'))
          (read_failure (url_loop pcre_exec parts conf none self fuel) v c0 level url s small e f p
            g)
