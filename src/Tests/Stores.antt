-- ===== src/Tests/Stores.antt =====
-- The URLs, configuration files and strings that a spider remembers.
use spiderframe.Base.{
  ℕ, ◌≡◌, refl, Bool, Option, none, some, List, [], ◌∷◌, arith, Text, bytes, text_eq, if◌then◌else◌,
}
use spiderframe.Template.{done}
use spiderframe.Link.{Ptr, ok}
use spiderframe.Link.Append.{Returns}
use spiderframe.Hash.Table.{HashData}
use spiderframe.Proc.{
  Range, UrlStore, black_loop, white_loop, sf_rewrite_exp, sf_proc_url_rewrite_range,
  sf_proc_insert_url, sf_proc_insert_url_withrange, load_urls,
}
use spiderframe.Proc.Frontier.{Remembered, sf_proc_insert_url-Remembered}
use spiderframe.Proc.Load.{EachUrl, IsKnown, Supplied, with_memory, load_urls-IsKnown}
use spiderframe.Hash.Table.Valid.{IsValid}
use spiderframe.Proc.Ranges.{Accepts, insert_withrange-Accepts}
use spiderframe.Confset.{HashConf, sf_confset_insert}
use spiderframe.Confset.Stored.{Stored, sf_confset_insert-Stored}
use spiderframe.Uniq.{sf_uniq_insert}
use spiderframe.Uniq.Dup.{IsDup, sf_uniq_insert-IsDup}
use spiderframe.Tests.Tables.{no_links, no_nodes, empty, empty-IsValid}

abbrev store : UrlStore
store = record { table = empty; nodes = λ p. record { data_len = 0; body = 0 }; file = [] }

abbrev url : Text
url = bytes "http://a/b"

sf_proc_insert_url-Remembered_example :
    Returns (Remembered store url 1) (sf_proc_insert_url store url 1 (some 5) no_links)
sf_proc_insert_url-Remembered_example =
    sf_proc_insert_url-Remembered no_links store no_nodes url 1 5 empty-IsValid (ground arith)
      (λ i. refl)

abbrev confs : Ptr → HashData HashConf
confs p = record { data_len = 24; body = record { conf_fn = bytes "sf_conf.xml"; s = 0; line = p } }

sf_confset_insert-Stored_example :
    Returns (Stored confs (bytes "sf_conf.xml")) (sf_confset_insert confs empty 7 no_links)
sf_confset_insert-Stored_example =
    sf_confset_insert-Stored confs no_links empty no_nodes 7 empty-IsValid (ground arith)
      (λ i. refl) refl

abbrev strings : Ptr → HashData Text
strings p = record { data_len = 8; body = bytes "title" }

sf_uniq_insert-IsDup_example :
    Returns (IsDup strings (bytes "title")) (sf_uniq_insert strings empty 7 no_links)
sf_uniq_insert-IsDup_example =
    sf_uniq_insert-IsDup strings no_links empty no_nodes 7 empty-IsValid (ground arith) (λ i. refl)
      refl

-- A pattern matches the URLs that are equal to it.
abbrev same_url : Text → Text → Option Text
same_url re s = if text_eq re s then some s else none

abbrev no_group : Text → Text → Text → Option Text
no_group re m name = none

abbrev ranges : List (Range Text)
ranges =
    record { url_white_re = some (bytes "x"); url_black_re = none; url_rewrite = none }
    ∷ record { url_white_re = some url; url_black_re = some (bytes "y"); url_rewrite = none }
    ∷ []

followed_url : sf_proc_url_rewrite_range same_url no_group url ranges ≡ done (some url)
unfolding sf_proc_url_rewrite_range black_loop white_loop sf_rewrite_exp
followed_url = refl

insert_withrange-Accepts_example :
    (b : Bool) × Accepts same_url no_group url ranges b
    × (sf_proc_insert_url_withrange same_url no_group ranges store url 1 (some 5) no_links
        ≡ (if b then sf_proc_insert_url store url 1 (some 5) no_links else ok store no_links))
insert_withrange-Accepts_example =
    insert_withrange-Accepts same_url no_group ranges store url 1 (some 5) no_links
      (refl, (refl, tt)) (omega arith)

abbrev url_lines : List (Text × Ptr)
url_lines = (bytes "http://a", 5) ∷ (bytes "http://b", 6) ∷ []

url_lines-Supplied : Supplied no_nodes url_lines
url_lines-Supplied = record { once = λ a. ground arith; present = refl; new = λ a there i. refl }

load_urls-IsKnown_example :
    Returns
      (λ st g. (f : ℕ → List Ptr) × IsValid g st.table f × EachUrl (IsKnown st g) url_lines)
      (load_urls (with_memory url_lines) store no_links)
load_urls-IsKnown_example =
    load_urls-IsKnown url_lines no_links store no_nodes empty-IsValid url_lines-Supplied
