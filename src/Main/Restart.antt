-- ===== src/Main/Restart.antt =====
-- A spider that is started on a URL of its own, and does not stop.
use spiderframe.Base.{
  ℕ, zero, suc, ◌<◌, ◌≡◌, refl, ap, ap₂, ◌∙◌, arith, Bool, true, false, not, ◌||◌, Option, none,
  some, List, [], ◌∷◌, Text, bytes, length, lt→ltb, if◌then◌else◌, ◌==◌,
}
use spiderframe.Base.Int.{ℤ, ltb_ℤ, suc_ℤ, abs, is_zero}
use spiderframe.Base.Result.{Result, ok, undefined, out_of_fuel, ◌>>=◌}
use spiderframe.Json.{Event, array_begin, array_end}
use spiderframe.Policy.{Policy}
use spiderframe.Proc.{sf_proc_url_match_range}
use spiderframe.Conf.{Conf}
use spiderframe.Confset.{sf_do_checkpoint}
use spiderframe.Main.Crawl.{
  Crawl, Vars, Parts, url_size, set_eof, with_rest, print_all, with_suffix, feedback_events,
  report_success, perform_if, policy_loop, checkpoint, go_on, page, downloaded, in_pool, on_url,
  url_loop, leave, spider_loop, sf_proc_start_spider,
}

-- The other parts return, and read no line.
unfoldable pub Stays : {S : Type 0} → Crawl S → Result (Crawl S) → Type 0
Stays {S} c r = (c' : Crawl S) × (r ≡ ok c') × (c'.line ≡ c.line)

-- There is memory, every download succeeds, and no other line is read meanwhile.
pub record Steady {R S : Type 0} (parts : Parts R S) : Type 0 where
  pub pool : (s : S) → (parts.create_pool s).0 ≡ true
  pub got : (url : Text) (s : S) → (parts.curl url s).0 ≡ true
  pub href_stays : (level : ℤ) (url : Text) (c : Crawl S) → Stays c (parts.get_href level url c)
  pub perform_stays : (p : Policy R) (url : Text) (c : Crawl S) → Stays c (parts.perform p url c)

module _ {R S M : Type 0} (pcre_exec : R → Text → Option M) (parts : Parts R S)
    (steady : Steady parts) (conf : Conf R) (start : Text) (self : ℕ) where
  print_all-line :
      (es : List Event) (c : Crawl S)
      → (print_all pcre_exec parts conf (some start) self es c).line ≡ c.line
  unfolding print_all
  print_all-line [] c = refl
  print_all-line (e ∷ es) c =
      print_all-line es (with_rest pcre_exec parts conf (some start) self (parts.print e c.rest) c)

  report_success-line :
      (url : Text) (c : Crawl S)
      → (report_success pcre_exec parts conf (some start) self url c).line ≡ c.line
  report_success-line url c = by_test (is_zero conf.url_feedback)
    where
      by_test :
          (b : Bool)
          → (if b
              then c
              else print_all pcre_exec parts conf
                  (some start)
                  self
                  (feedback_events pcre_exec parts conf
                    (some start)
                    self
                    (bytes "success_url")
                    (bytes "url")
                    url)
                  c).line
            ≡ c.line
      by_test true = refl
      by_test false = print_all-line _ c

  checkpoint-line :
      (c : Crawl S) → (checkpoint pcre_exec parts conf (some start) self c).line ≡ c.line
  checkpoint-line c = by_test (sf_do_checkpoint (abs c.line) == 0)
    where
      by_test :
          (b : Bool)
          → (if b
              then c
              else with_rest pcre_exec parts conf
                  (some start)
                  self
                  (parts.save_chkpoint c.line c.rest)
                  c).line
            ≡ c.line
      by_test true = refl
      by_test false = refl

  perform_if-Stays :
      (b : Bool) (p : Policy R) (url : Text) (c : Crawl S)
      → Stays c (perform_if pcre_exec parts conf (some start) self b p url c)
  unfolding Stays
  perform_if-Stays true p url c = steady.perform_stays p url c
  perform_if-Stays false p url c = (c, refl, refl)

  policy_loop-Stays :
      (ps : List (Policy R)) (url : Text) (c : Crawl S)
      → Stays c (policy_loop pcre_exec parts conf (some start) self ps url c)
  unfolding Stays policy_loop
  policy_loop-Stays [] url c = (c, refl, refl)
  policy_loop-Stays (p ∷ ps) url c =
      let (c1, r1, l1) =
        perform_if-Stays (sf_proc_url_match_range pcre_exec url p.policy_range) p url c in
      let (c2, r2, l2) = policy_loop-Stays ps url c1 in
      (
        c2,
        ap (λ r. r >>= policy_loop pcre_exec parts conf (some start) self ps url) r1 ∙ r2,
        l2 ∙ l1,
      )

  page-Stays :
      (backup_url : Text) (v : Vars) (c : Crawl S)
      → Stays c (page pcre_exec parts conf (some start) self backup_url v c)
  unfolding Stays page
  page-Stays backup_url v c =
      let c0 = report_success pcre_exec parts conf (some start) self backup_url c in
      let (c1, r1, l1) = steady.href_stays (suc_ℤ v.level) v.url c0 in
      let (c2, r2, l2) = policy_loop-Stays conf.policy v.url c1 in
      (
        c2,
        ap (λ r. r >>= policy_loop pcre_exec parts conf (some start) self conf.policy v.url) r1
            ∙ r2,
        l2 ∙ l1 ∙ report_success-line backup_url c,
      )

  -- Neither of the limits is reached.
  abbrev Within : ℤ → Crawl S → Type 0
  Within level c = (ltb_ℤ conf.url_level level ≡ false) × (ltb_ℤ c.line conf.url_count ≡ true)

  Within-line : (level : ℤ) (c c' : Crawl S) → c'.line ≡ c.line → Within level c → Within level c'
  Within-line level c c' e w = (w.0, ap (λ n. ltb_ℤ n conf.url_count) e ∙ w.1)

  Hangs : (Vars → Crawl S → Result (Vars × Crawl S)) → Type 0
  Hangs next = (v : Vars) (c : Crawl S) → Within v.level c → next v c ≡ out_of_fuel

  go_on_hang :
      (next : Vars → Crawl S → Result (Vars × Crawl S)) (v : Vars) (c : Crawl S)
      → Hangs next
      → Within v.level c
      → go_on pcre_exec parts conf (some start) self next v c ≡ out_of_fuel
  unfolding Hangs
  go_on_hang next v c h w =
      ap₂
        (λ a b.
          if a || not b
          then ok (v, set_eof pcre_exec parts conf (some start) self true c)
          else next v (checkpoint pcre_exec parts conf (some start) self c))
        w.0 w.1
      ∙ h v (checkpoint pcre_exec parts conf (some start) self c) (
          Within-line v.level c (checkpoint pcre_exec parts conf (some start) self c)
            (checkpoint-line c) w)

  downloaded_hang :
      (next : Vars → Crawl S → Result (Vars × Crawl S)) (backup_url : Text) (v : Vars) (c : Crawl S)
      (got : Bool)
      → got ≡ true
      → Hangs next
      → Within v.level c
      → downloaded pcre_exec parts conf (some start) self next backup_url v c got ≡ out_of_fuel
  unfolding Stays
  downloaded_hang next backup_url v c got g h w =
      let (c', r, l) = page-Stays backup_url v c in
      ap (downloaded pcre_exec parts conf (some start) self next backup_url v c) g
      ∙ ap (λ r. r >>= go_on pcre_exec parts conf (some start) self next v) r
      ∙ go_on_hang next v c' h (Within-line v.level c c' l w)

  in_pool_hang :
      (next : Vars → Crawl S → Result (Vars × Crawl S)) (v : Vars) (c : Crawl S) (pool : Bool × S)
      → pool.0 ≡ true
      → conf.url_suffix ≡ none
      → Hangs next
      → Within v.level c
      → in_pool pcre_exec parts conf (some start) self next v c pool ≡ out_of_fuel
  in_pool_hang next v c (false, s) g e h w = ground arith
  in_pool_hang next v c (true, s) g e h w =
      let c1 =
        set_eof pcre_exec parts conf (some start) self false
          (with_rest pcre_exec parts conf (some start) self s c) in
      let s2 = (parts.curl v.url c1.rest).1 in
      ap
        (λ o. with_suffix pcre_exec parts conf (some start) self o v c1.rest >>= λ v'.
          downloaded pcre_exec parts conf (some start) self next v.url v'
            (with_rest pcre_exec parts conf (some start) self (parts.curl v'.url c1.rest).1 c1)
            (parts.curl v'.url c1.rest).0)
        e
      ∙ downloaded_hang next v.url v (with_rest pcre_exec parts conf (some start) self s2 c1)
          (parts.curl v.url c1.rest).0 (steady.got v.url c1.rest) h w

  url_loop_hang :
      length start < url_size
      → conf.url_suffix ≡ none
      → (k : ℕ) → Hangs (url_loop pcre_exec parts conf (some start) self k)
  unfolding Hangs url_loop
  url_loop_hang small e zero v c w = refl
  url_loop_hang small e (suc k) v c w =
      let v1 : Vars = record v { url = start } in
      ap
        (λ b.
          ((if b then ok start else undefined) >>= λ url. ok (some (record v { url = url }), c))
          >>= on_url pcre_exec parts conf (some start) self
              (url_loop pcre_exec parts conf (some start) self k) v)
        (lt→ltb (length start) url_size small)
      ∙ in_pool_hang (url_loop pcre_exec parts conf (some start) self k) v1 c
          (parts.create_pool c.rest) (steady.pool c.rest) e (url_loop_hang small e k) w

  spider_loop_hang :
      length start < url_size
      → conf.url_suffix ≡ none
      → (fuel k : ℕ) (v : Vars) (c : Crawl S) → Within v.level c
      → spider_loop pcre_exec parts conf (some start) self fuel k v c ≡ out_of_fuel
  unfolding spider_loop Hangs
  spider_loop_hang small e fuel zero v c w = refl
  spider_loop_hang small e fuel (suc k) v c w =
      ap
        (λ r.
          r
          >>= leave pcre_exec parts conf (some start) self
              (spider_loop pcre_exec parts conf (some start) self fuel k))
        (url_loop_hang small e fuel v c w)

  -- A spider with a start URL that fits its buffer, and no suffix, when there is memory, every
  -- download succeeds, the other parts return and read no line of the file: when `level`, which
  -- nothing writes then, happens not to be above url_level and the count is not reached, no fuel is
  -- enough: sf_proc_start_spider downloads the same URL again and again.
  pub start_spider_hang :
      (fuel : ℕ) (v : Vars) (c : Crawl S)
      → length start < url_size
      → conf.url_suffix ≡ none
      → ltb_ℤ conf.url_level v.level ≡ false
      → ltb_ℤ c.line conf.url_count ≡ true
      → sf_proc_start_spider pcre_exec parts conf (some start) self fuel v c ≡ out_of_fuel
  unfolding sf_proc_start_spider
  start_spider_hang fuel v c small e a b =
      let c0 = print_all pcre_exec parts conf (some start) self (array_begin ∷ []) c in
      ap
        (λ r. r >>= λ c'. ok (print_all pcre_exec parts conf (some start) self (array_end ∷ []) c'))
        (spider_loop_hang small e fuel fuel v c0
          (Within-line v.level c c0 (print_all-line (array_begin ∷ []) c) (a, b)))
