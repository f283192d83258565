-- ===== src/Tests/Hrefs.antt =====
-- The links of a small page.
use spiderframe.Base.{
  ℕ, ◌≡◌, refl, Option, none, some, List, [], ◌∷◌, Text, bytes, take, text_eq, arith, if◌then◌else◌,
  inr,
}
use spiderframe.Base.Result.{Result, ok}
use spiderframe.Href.{
  pattern_url, link_of, gethostpath, host_of, resolve, href_loop, sf_pcre_get_href,
}
use spiderframe.Href.Links.{Grouped, Scan, insert_all, get_href-insert_all}
use spiderframe.Url.{find_sub, redurceurl, up_loop, here_loop}

-- Every byte of a page as a link, on the host "h".
abbrev one_byte : Text → Text → Option (Unit {0})
one_byte re [] = none
one_byte re (c ∷ t) = some tt

abbrev byte_group : Text → Unit {0} → Text → Text → Option Text
byte_group re m t name =
    if text_eq name (bytes "url")
    then some []
    else if text_eq name (bytes "hrefurl")
    then some (take 1 t)
    else some (bytes "http://h/")

abbrev insert_url : Text → ℕ → List Text → Result (List Text)
insert_url url level urls = ok (url ∷ urls)

abbrev one : Unit {0} → ℕ
one m = 1

abbrev literal : Text → Text
literal pattern = pattern

Grouped-bytes :
    (t : Text) (m : Unit {0})
    → one_byte (literal pattern_url) t ≡ some m
    → Grouped one_byte one byte_group literal insert_url t m
Grouped-bytes [] m h = ground arith
Grouped-bytes (c ∷ t) m h = record {
  groups = inr (c ∷ [], refl, refl);
  above = omega arith;
  within = omega arith;
}

get_href-insert_all_example :
    (found : List (Text × Unit {0})) × Scan one_byte one byte_group literal insert_url
      (bytes "ab")
      found
    × (sf_pcre_get_href one_byte one byte_group literal insert_url 1
          (bytes "ab")
          (bytes "http://h/x")
          []
        ≡ insert_all one_byte one byte_group literal insert_url 1 (bytes "http://h/x") found [])
get_href-insert_all_example =
    get_href-insert_all one_byte one byte_group literal insert_url Grouped-bytes 1 (bytes "ab")
      (bytes "http://h/x") []

both_bytes :
    sf_pcre_get_href one_byte one byte_group literal insert_url 1
      (bytes "ab")
      (bytes "http://h/x")
      []
    ≡ ok (bytes "http://h/b" ∷ bytes "http://h/a" ∷ [])
unfolding sf_pcre_get_href href_loop link_of resolve host_of gethostpath find_sub redurceurl up_loop
    here_loop
both_bytes = refl
