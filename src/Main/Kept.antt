-- ===== src/Main/Kept.antt =====
-- A relation between the states before and after that every change of `sf_proc_start_spider` keeps
-- is kept by its loops.
use spiderframe.Base.{
  ℕ, Bool, true, false, not, ◌&&◌, Option, List, [], ◌∷◌, ◌++◌, Text, bytes, length, if◌then◌else◌,
  ◌==◌,
}
use spiderframe.Base.Int.{ℤ, suc_ℤ, abs, is_zero}
use spiderframe.Base.Result.{Result, ok, ◌>>=◌, Soundly, Soundly-bind, Soundly-map, Soundly-any}
use spiderframe.Json.{Event, object_begin, object_end, array_begin, array_end, key, string}
use spiderframe.Json.Nested.{
  IsNested, IsNested-nil, IsNested-IsInside, object, object-IsNested, array, array-IsNested,
  key-IsInside, string-IsInside,
}
use spiderframe.Policy.{Policy}
use spiderframe.Proc.{sf_proc_url_match_range}
use spiderframe.Conf.{Conf}
use spiderframe.Confset.{sf_do_checkpoint}
use spiderframe.Main.Crawl.{
  Crawl, Vars, Parts, read_literal, set_eof, with_rest, print_all, with_suffix, feedback_events,
  print_failure, report_failure, report_success, perform_if, policy_loop, is_done, checkpoint,
  go_on, page, downloaded, in_pool,
}

pub url_object-IsNested :
    (url_key url : Text) → IsNested (object_begin ∷ key url_key ∷ string url ∷ object_end ∷ [])
url_object-IsNested url_key url = object-IsNested (key url_key ∷ string url ∷ []) (
    key-IsInside url_key (string url ∷ [])
      (string-IsInside object url [] (IsNested-IsInside object [] IsNested-nil)))

-- A record with one array.
pub named_array-IsNested :
    (name : Text) (es : List Event)
    → IsNested es
    → IsNested (object_begin ∷ (key name ∷ (array_begin ∷ es ++ array_end ∷ [])) ++ object_end ∷ [])
named_array-IsNested name es n = object-IsNested (key name ∷ (array_begin ∷ es ++ array_end ∷ [])) (
    key-IsInside name (array_begin ∷ es ++ array_end ∷ []) (
      IsNested-IsInside object (array_begin ∷ es ++ array_end ∷ [])
        (array-IsNested es (IsNested-IsInside array es n))))

-- What the loops change, one change at a time.
pub record IsKept {R S : Type 0} (parts : Parts R S) (Rel : Crawl S → Crawl S → Type 0)
    : Type 0 where
  pub same : (c : Crawl S) → Rel c c
  pub next : (a b c : Crawl S) → Rel a b → Rel b c → Rel a c
  pub read :
      (c : Crawl S) (line : ℤ) → Rel c (record c { line = line; rest = (parts.fscanf c.rest).1 })
  pub pool : (c : Crawl S) → Rel c (record c { rest = (parts.create_pool c.rest).1 })
  pub flag : (c : Crawl S) (eof : List Bool) → Rel c (record c { eof = eof })
  pub curl : (url : Text) (c : Crawl S) → Rel c (record c { rest = (parts.curl url c.rest).1 })
  pub save : (line : ℤ) (c : Crawl S) → Rel c (record c { rest = parts.save_chkpoint line c.rest })
  pub href : (level : ℤ) (url : Text) (c : Crawl S) → Soundly (Rel c) (parts.get_href level url c)
  pub perform : (p : Policy R) (url : Text) (c : Crawl S) → Soundly (Rel c) (parts.perform p url c)

module _ {R S M : Type 0} (pcre_exec : R → Text → Option M) (parts : Parts R S) (conf : Conf R)
    (starturl : Option Text) (self : ℕ) (Rel : Crawl S → Crawl S → Type 0) (k : IsKept parts Rel)
    (printed : (es : List Event) (c : Crawl S)
      → IsNested es
      → Rel c (print_all pcre_exec parts conf starturl self es c)) where
  -- One change after another.
  pub then-Rel :
      {A : Type 0} (to : A → Crawl S) (a b : Crawl S) (r : Result A)
      → Rel a b
      → Soundly (λ x. Rel b (to x)) r
      → Soundly (λ x. Rel a (to x)) r
  then-Rel to a b r h m =
      Soundly-map (λ x. Rel b (to x)) (λ x. Rel a (to x)) r (λ x. k.next a b (to x) h) m

  feedback-Rel :
      (name url_key url : Text) (c : Crawl S)
      → Rel c (
          print_all pcre_exec parts conf starturl self
            (feedback_events pcre_exec parts conf starturl self name url_key url)
            c)
  feedback-Rel name url_key url c =
      printed (feedback_events pcre_exec parts conf starturl self name url_key url) c (
        named_array-IsNested name (object_begin ∷ key url_key ∷ string url ∷ object_end ∷ [])
          (url_object-IsNested url_key url))

  pub print_failure-Rel :
      (url_key url : Text) (c : Crawl S)
      → Rel c (print_failure pcre_exec parts conf starturl self url_key url c)
  unfolding print_failure
  print_failure-Rel url_key url c = feedback-Rel (bytes "fail_url") url_key url c

  report_success-Rel :
      (url : Text) (c : Crawl S) → Rel c (report_success pcre_exec parts conf starturl self url c)
  report_success-Rel url c = by_test (is_zero conf.url_feedback)
    where
      by_test :
          (b : Bool)
          → Rel c (
              if b
              then c
              else print_all pcre_exec parts conf starturl self
                  (feedback_events pcre_exec parts conf starturl self
                    (bytes "success_url")
                    (bytes "url")
                    url)
                  c)
      by_test true = k.same c
      by_test false = feedback-Rel (bytes "success_url") (bytes "url") url c

  perform_if-Rel :
      (b : Bool) (p : Policy R) (url : Text) (c : Crawl S)
      → Soundly (Rel c) (perform_if pcre_exec parts conf starturl self b p url c)
  perform_if-Rel true p url c = k.perform p url c
  perform_if-Rel false p url c = k.same c

  policy_loop-Rel :
      (ps : List (Policy R)) (url : Text) (c : Crawl S)
      → Soundly (Rel c) (policy_loop pcre_exec parts conf starturl self ps url c)
  unfolding policy_loop
  policy_loop-Rel [] url c = k.same c
  policy_loop-Rel (p ∷ ps) url c =
      let b = sf_proc_url_match_range pcre_exec url p.policy_range in
      Soundly-bind (Rel c) (Rel c) (perform_if pcre_exec parts conf starturl self b p url c) _
        (perform_if-Rel b p url c) (λ c1 g. then-Rel (λ x. x) c c1 _ g (policy_loop-Rel ps url c1))

  page-Rel :
      (backup_url : Text) (v : Vars) (c : Crawl S)
      → Soundly (Rel c) (page pcre_exec parts conf starturl self backup_url v c)
  unfolding page
  page-Rel backup_url v c =
      let c0 = report_success pcre_exec parts conf starturl self backup_url c in
      Soundly-bind (Rel c0) (Rel c) (parts.get_href (suc_ℤ v.level) v.url c0) _
        (k.href (suc_ℤ v.level) v.url c0)
        (λ c1 g.
          then-Rel (λ x. x) c c1 _ (k.next c c0 c1 (report_success-Rel backup_url c) g)
            (policy_loop-Rel conf.policy v.url c1))

  checkpoint-Rel : (c : Crawl S) → Rel c (checkpoint pcre_exec parts conf starturl self c)
  checkpoint-Rel c = by_test (sf_do_checkpoint (abs c.line) == 0)
    where
      by_test :
          (b : Bool)
          → Rel c (
              if b
              then c
              else with_rest pcre_exec parts conf starturl self
                  (parts.save_chkpoint c.line c.rest)
                  c)
      by_test true = k.same c
      by_test false = k.save c.line c

  abbrev pub After : Crawl S → Result (Vars × Crawl S) → Type 0
  After c r = Soundly (λ x. Rel c x.1) r

  module _ (next : Vars → Crawl S → Result (Vars × Crawl S))
      (next-Rel : (v : Vars) (c : Crawl S) → After c (next v c)) where
    go_on-Rel :
        (v : Vars) (c : Crawl S) → After c (go_on pcre_exec parts conf starturl self next v c)
    go_on-Rel v c = by_done (is_done pcre_exec parts conf starturl self v c)
      where
        by_done :
            (b : Bool)
            → After c (
                if b
                then ok (v, set_eof pcre_exec parts conf starturl self true c)
                else next v (checkpoint pcre_exec parts conf starturl self c))
        by_done true = k.flag c _
        by_done false =
            then-Rel (λ x. x.1) c (checkpoint pcre_exec parts conf starturl self c) _
              (checkpoint-Rel c) (next-Rel v (checkpoint pcre_exec parts conf starturl self c))

    failure-Rel :
        (url : Text) (v : Vars) (c : Crawl S) (r : Result Text)
        → After c (
            (r >>= λ url_key. ok (print_failure pcre_exec parts conf starturl self url_key url c))
            >>= λ c'. ok (v, c'))
    failure-Rel url v c r =
        Soundly-bind (Rel c) (λ x. Rel c x.1)
          (r >>= λ url_key. ok (print_failure pcre_exec parts conf starturl self url_key url c))
          (λ c'. ok (v, c'))
          (Soundly-bind (λ t. Unit {0}) (Rel c) r _ (Soundly-any r)
            (λ url_key u. print_failure-Rel url_key url c))
          (λ c' g. g)

    downloaded-Rel :
        (backup_url : Text) (v : Vars) (c : Crawl S) (got : Bool)
        → After c (downloaded pcre_exec parts conf starturl self next backup_url v c got)
    downloaded-Rel backup_url v c got = by_test (not got && not (is_zero conf.url_feedback))
      where
        by_test :
            (b : Bool)
            → After c (
                if b
                then (report_failure pcre_exec parts conf starturl self backup_url c >>= λ c'.
                    ok (v, c'))
                else (page pcre_exec parts conf starturl self backup_url v c >>= λ c'.
                    go_on pcre_exec parts conf starturl self next v c'))
        by_test true =
            failure-Rel backup_url v c (read_literal (bytes "url") (length (bytes "fail_url")))
        by_test false =
            Soundly-bind (Rel c) (λ x. Rel c x.1)
              (page pcre_exec parts conf starturl self backup_url v c) _ (page-Rel backup_url v c)
              (λ c' g. then-Rel (λ x. x.1) c c' _ g (go_on-Rel v c'))

    fetched-Rel :
        (v : Vars) (c : Crawl S)
        → After c (
            with_suffix pcre_exec parts conf starturl self conf.url_suffix v c.rest >>= λ v'.
            downloaded pcre_exec parts conf starturl self next v.url v'
              (with_rest pcre_exec parts conf starturl self (parts.curl v'.url c.rest).1 c)
              (parts.curl v'.url c.rest).0)
    fetched-Rel v c =
        let r = with_suffix pcre_exec parts conf starturl self conf.url_suffix v c.rest in
        Soundly-bind (λ w. Unit {0}) (λ x. Rel c x.1) r _ (Soundly-any r)
          (λ v' u.
            let c2 = with_rest pcre_exec parts conf starturl self (parts.curl v'.url c.rest).1 c in
            then-Rel (λ x. x.1) c c2 _ (k.curl v'.url c)
              (downloaded-Rel v.url v' c2 (parts.curl v'.url c.rest).0))

    pub in_pool-Rel :
        (v : Vars) (c : Crawl S) (pool : Bool × S)
        → Rel c (record c { rest = pool.1 })
        → After c (in_pool pcre_exec parts conf starturl self next v c pool)
    in_pool-Rel v c (false, s) g = g
    in_pool-Rel v c (true, s) g =
        let c0 = with_rest pcre_exec parts conf starturl self s c in
        let c1 = set_eof pcre_exec parts conf starturl self false c0 in
        then-Rel (λ x. x.1) c c1 _ (k.next c c0 c1 g (k.flag c0 _)) (fetched-Rel v c1)
