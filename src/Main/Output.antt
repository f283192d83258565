-- ===== src/Main/Output.antt =====
-- The JSON events of a spider.
use spiderframe.Base.{
  append-nil, sym, ◌∙◌, ℕ, ◌≡◌, refl, Option, ap, append_assoc, List, [], ◌∷◌, ◌++◌, Text,
}
use spiderframe.Base.Int.{ℤ}
use spiderframe.Base.Result.{Soundly, Soundly-bind}
use spiderframe.Json.{Event, array_begin, array_end}
use spiderframe.Json.Nested.{IsNested, IsNested-nil, IsNested-append}
use spiderframe.Policy.{Policy}
use spiderframe.Conf.{Conf}
use spiderframe.Main.Crawl.{Crawl, Vars, Parts, with_rest, print_all, print_failure, spider_loop}
use spiderframe.Main.Crawl.{sf_proc_start_spider}
use spiderframe.Main.Kept.{IsKept, print_failure-Rel}
use spiderframe.Main.Loops.{spider_loop-Rel}

-- What was printed between two states is nested; `events` are those that the printer was given.
unfoldable pub Printed : {S : Type 0} → (S → List Event) → Crawl S → Crawl S → Type 0
Printed events c c' = (es : List Event) × (events c'.rest ≡ events c.rest ++ es) × IsNested es

-- What was printed between two states is an array around nested events.
unfoldable pub PrintedArray : {S : Type 0} → (S → List Event) → Crawl S → Crawl S → Type 0
PrintedArray events c c' =
    (es : List Event) × (events c'.rest ≡ events c.rest ++ (array_begin ∷ es ++ array_end ∷ []))
    × IsNested es

-- The other parts print nested events, or none.
pub record Prints {R S : Type 0} (parts : Parts R S) (events : S → List Event) : Type 0 where
  pub print_adds : (e : Event) (s : S) → events (parts.print e s) ≡ events s ++ e ∷ []
  pub scan_keeps : (s : S) → events (parts.fscanf s).1 ≡ events s
  pub pool_keeps : (s : S) → events (parts.create_pool s).1 ≡ events s
  pub curl_keeps : (url : Text) (s : S) → events (parts.curl url s).1 ≡ events s
  pub save_keeps : (line : ℤ) (s : S) → events (parts.save_chkpoint line s) ≡ events s
  pub href_prints :
      (level : ℤ) (url : Text) (c : Crawl S)
      → Soundly (Printed events c) (parts.get_href level url c)
  pub perform_prints :
      (p : Policy R) (url : Text) (c : Crawl S) → Soundly (Printed events c) (parts.perform p url c)

module _ {R S M : Type 0} (pcre_exec : R → Text → Option M) (parts : Parts R S)
    (events : S → List Event) (prints : Prints parts events) (conf : Conf R)
    (starturl : Option Text) (self : ℕ) where
  print_all-events :
      (es : List Event) (c : Crawl S)
      → events (print_all pcre_exec parts conf starturl self es c).rest ≡ events c.rest ++ es
  unfolding print_all
  print_all-events [] c = sym (append-nil (events c.rest))
  print_all-events (e ∷ es) c =
      print_all-events es (with_rest pcre_exec parts conf starturl self (parts.print e c.rest) c)
      ∙ ap (λ before. before ++ es) (prints.print_adds e c.rest)
      ∙ append_assoc (events c.rest) (e ∷ []) es

  unchanged : (c c' : Crawl S) → events c'.rest ≡ events c.rest → Printed events c c'
  unfolding Printed
  unchanged c c' h = ([], h ∙ sym (append-nil (events c.rest)), IsNested-nil)

  print_all-Printed :
      (es : List Event) (c : Crawl S)
      → IsNested es
      → Printed events c (print_all pcre_exec parts conf starturl self es c)
  unfolding Printed
  print_all-Printed es c n = (es, print_all-events es c, n)

  kept : IsKept parts (Printed events)
  unfolding Printed
  kept = record {
    same = λ c. unchanged c c refl;
    next = λ a b c (es, e, n) (fs, f, m). (
      es ++ fs,
      f ∙ ap (λ ev. ev ++ fs) e ∙ append_assoc (events a.rest) es fs,
      IsNested-append es fs n m,
    );
    read = λ c line.
        unchanged c (record c { line = line; rest = (parts.fscanf c.rest).1 })
          (prints.scan_keeps c.rest);
    pool = λ c.
        unchanged c (record c { rest = (parts.create_pool c.rest).1 }) (prints.pool_keeps c.rest);
    flag = λ c eof. unchanged c (record c { eof = eof }) refl;
    curl = λ url c.
        unchanged c (record c { rest = (parts.curl url c.rest).1 }) (prints.curl_keeps url c.rest);
    save = λ line c.
        unchanged c (record c { rest = parts.save_chkpoint line c.rest })
          (prints.save_keeps line c.rest);
    href = λ level url c. prints.href_prints level url c;
    perform = λ p url c. prints.perform_prints p url c;
  }

  -- The array that the whole output of a spider is.
  array-PrintedArray :
      (c c' : Crawl S)
      → Printed events (print_all pcre_exec parts conf starturl self (array_begin ∷ []) c) c'
      → PrintedArray events c (print_all pcre_exec parts conf starturl self (array_end ∷ []) c')
  unfolding Printed PrintedArray
  array-PrintedArray c c' (es, e, n) = (
    es,
    print_all-events (array_end ∷ []) c'
        ∙ ap (λ ev. ev ++ array_end ∷ [])
            (e
              ∙ ap (λ ev. ev ++ es) (print_all-events (array_begin ∷ []) c)
              ∙ append_assoc (events c.rest) (array_begin ∷ []) es)
        ∙ append_assoc (events c.rest) (array_begin ∷ es) (array_end ∷ []),
    n,
  )

  -- When the other parts print nested JSON events, or none, as sf_pcre_perform does, then a spider
  -- that returns has printed the beginning of an array, nested events and the end of the array, for
  -- any configuration, with a start URL or the file, and however its loops are left. The record of a
  -- failed download, which is printed only behind a read beyond the literal "url", is nested too,
  -- whatever that read gives as the key.
  pub start_spider-IsNested :
      (fuel : ℕ) (v : Vars) (c : Crawl S) (url_key url : Text)
      → Soundly
          (PrintedArray events c)
          (sf_proc_start_spider pcre_exec parts conf starturl self fuel v c)
        × Printed events c (print_failure pcre_exec parts conf starturl self url_key url c)
  unfolding sf_proc_start_spider
  start_spider-IsNested fuel v c url_key url =
      let c0 = print_all pcre_exec parts conf starturl self (array_begin ∷ []) c in
      (
        Soundly-bind (Printed events c0) (PrintedArray events c)
            (spider_loop pcre_exec parts conf starturl self fuel fuel v c0) _
            (spider_loop-Rel pcre_exec parts conf starturl self (Printed events) kept
              print_all-Printed fuel fuel v c0)
            (λ c'. array-PrintedArray c c'),
        print_failure-Rel pcre_exec parts conf starturl self (Printed events) kept print_all-Printed
            url_key url c,
      )
