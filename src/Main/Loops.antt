-- ===== src/Main/Loops.antt =====
-- What the loops of `sf_proc_start_spider` keep, and what they print.
use spiderframe.Base.{
  ℕ, zero, suc, Bool, true, false, not, ◌&&◌, Option, none, some, subst, ap, append_assoc, List, [],
  ◌∷◌, Text, bytes, drop, if◌then◌else◌,
}
use spiderframe.Base.Int.{ℤ, pos_part, suc_ℤ, is_zero}
use spiderframe.Base.Result.{Result, ok, Soundly, Soundly-bind, Soundly-any}
use spiderframe.Json.{Event, object_begin, object_end, array_begin, array_end, key, string}
use spiderframe.Json.Nested.{IsNested, IsNested-nil, IsNested-append}
use spiderframe.Conf.{Conf}
use spiderframe.Main.Crawl.{
  Scanned, at_eof, nothing, number, both, Crawl, Vars, Parts, fits, sf_all_spiders_eof, print_all,
  scanned, sf_global_scan_url, read_url, is_done, on_url, url_loop, unparse_lines,
  sf_proc_output_unparse, is_none, leave, spider_loop,
}
use spiderframe.Main.Kept.{IsKept, then-Rel, in_pool-Rel, url_object-IsNested, named_array-IsNested}

module _ {R S M : Type 0} (pcre_exec : R → Text → Option M) (parts : Parts R S) (conf : Conf R)
    (starturl : Option Text) (self : ℕ) where
  unparse_lines-IsNested :
      (lines : List (ℤ × Text)) → IsNested (unparse_lines pcre_exec parts conf starturl self lines)
  unparse_lines-IsNested [] = IsNested-nil
  unparse_lines-IsNested ((level, url) ∷ lines) =
      IsNested-append (object_begin ∷ key (bytes "url") ∷ string url ∷ object_end ∷ [])
        (unparse_lines pcre_exec parts conf starturl self lines)
        (url_object-IsNested (bytes "url") url) (unparse_lines-IsNested lines)

  module _ (Rel : Crawl S → Crawl S → Type 0) (k : IsKept parts Rel)
      (printed : (es : List Event) (c : Crawl S)
        → IsNested es
        → Rel c (print_all pcre_exec parts conf starturl self es c)) where
    scanned-Rel :
        (v : Vars) (c : Crawl S) (r : Scanned × S)
        → ((line : ℤ) → Rel c (record c { line = line; rest = r.1 }))
        → Soundly (λ x. Rel c x.1) (scanned pcre_exec parts conf starturl self v c r)
    scanned-Rel v c (at_eof, s) h = h c.line
    scanned-Rel v c (nothing, s) h = h c.line
    scanned-Rel v c (number n, s) h = h (suc_ℤ c.line)
    scanned-Rel v c (both n u, s) h =
        Soundly-bind (λ t. Unit {0}) (λ x. Rel c x.1) (fits u) _ (Soundly-any (fits u))
          (λ t w. h (suc_ℤ c.line))

    read_url-Rel :
        (start : Option Text) (v : Vars) (c : Crawl S)
        → Soundly (λ x. Rel c x.1) (read_url pcre_exec parts conf starturl self start v c)
    unfolding sf_global_scan_url
    read_url-Rel none v c = scanned-Rel v c (parts.fscanf c.rest) (k.read c)
    read_url-Rel (some start) v c =
        Soundly-bind (λ t. Unit {0}) (λ x. Rel c x.1) (fits start) _ (Soundly-any (fits start))
          (λ t w. k.same c)

    on_url-Rel :
        (next : Vars → Crawl S → Result (Vars × Crawl S)) (v : Vars) (r : Option Vars × Crawl S)
        → ((v : Vars) (c : Crawl S) → Soundly (λ x. Rel c x.1) (next v c))
        → Soundly (λ x. Rel r.1 x.1) (on_url pcre_exec parts conf starturl self next v r)
    on_url-Rel next v (none, c) h = k.flag c _
    on_url-Rel next v (some v', c) h =
        in_pool-Rel pcre_exec parts conf starturl self Rel k printed next h v' c
          (parts.create_pool c.rest) (k.pool c)

    url_loop-Rel :
        (n : ℕ) (v : Vars) (c : Crawl S)
        → Soundly (λ x. Rel c x.1) (url_loop pcre_exec parts conf starturl self n v c)
    unfolding url_loop
    url_loop-Rel zero v c = tt
    url_loop-Rel (suc n) v c =
        Soundly-bind (λ x. Rel c x.1) (λ x. Rel c x.1)
          (read_url pcre_exec parts conf starturl self starturl v c) _ (read_url-Rel starturl v c)
          (λ r g.
            then-Rel pcre_exec parts conf starturl self Rel k printed (λ x. x.1) c r.1 _ g
              (on_url-Rel (url_loop pcre_exec parts conf starturl self n) v r (url_loop-Rel n)))

    unparse-Rel :
        (line : ℕ) (c : Crawl S)
        → Rel c (sf_proc_output_unparse pcre_exec parts conf starturl self line c)
    unfolding sf_proc_output_unparse
    unparse-Rel line c =
        let lines =
          unparse_lines pcre_exec parts conf starturl self (drop line (parts.unparsed c.rest)) in
        printed _ c (
          subst IsNested
            (ap (λ es. object_begin ∷ key (bytes "unparse_url") ∷ array_begin ∷ es)
              (append_assoc lines (array_end ∷ []) (object_end ∷ [])))
            (named_array-IsNested (bytes "unparse_url") lines
              (unparse_lines-IsNested (drop line (parts.unparsed c.rest)))))

    leave-Rel :
        (next : Vars → Crawl S → Result (Crawl S)) (v : Vars) (c : Crawl S)
        → ((v : Vars) (c : Crawl S) → Soundly (Rel c) (next v c))
        → Soundly (Rel c) (leave pcre_exec parts conf starturl self next (v, c))
    leave-Rel next v c h =
        by_done (is_done pcre_exec parts conf starturl self v c) (sf_all_spiders_eof c.eof)
      where
        unparsed-Rel :
            (b : Bool)
            → Rel c (
                if b
                then sf_proc_output_unparse pcre_exec parts conf starturl self (pos_part c.line) c
                else c)
        unparsed-Rel true = unparse-Rel (pos_part c.line) c
        unparsed-Rel false = k.same c

        by_done :
            (d e : Bool)
            → Soundly (Rel c) (
                if d
                then ok (
                    if is_none pcre_exec parts conf starturl self starturl
                      && not (is_zero conf.url_feedback)
                    then sf_proc_output_unparse pcre_exec parts conf starturl self
                        (pos_part c.line)
                        c
                    else c)
                else if e
                then ok c
                else next v c)
        by_done true e =
            unparsed-Rel (
              is_none pcre_exec parts conf starturl self starturl
              && not (is_zero conf.url_feedback))
        by_done false true = k.same c
        by_done false false = h v c

    pub spider_loop-Rel :
        (fuel n : ℕ) (v : Vars) (c : Crawl S)
        → Soundly (Rel c) (spider_loop pcre_exec parts conf starturl self fuel n v c)
    unfolding spider_loop
    spider_loop-Rel fuel zero v c = tt
    spider_loop-Rel fuel (suc n) v c =
        Soundly-bind (λ x. Rel c x.1) (Rel c) (url_loop pcre_exec parts conf starturl self fuel v c)
          _ (url_loop-Rel fuel v c)
          (λ r g.
            then-Rel pcre_exec parts conf starturl self Rel k printed (λ x. x) c r.1 _ g
              (leave-Rel (spider_loop pcre_exec parts conf starturl self fuel n) r.0 r.1
                (spider_loop-Rel fuel n)))
