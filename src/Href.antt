-- ===== src/Href.antt =====
-- `sf_pcre_get_href`, `gethost` and `gethostpath` of sf_pcre.c: the links of a page. pcre is a
-- parameter as in Perform, and so is `sf_proc_insert_url_withrange`, on a state `S`.
pub mod Links
use spiderframe.Base.{
  ℕ, zero, suc, Bool, true, false, ◌||◌, Option, none, some, List, [], ◌∷◌, ◌++◌, Text, bytes,
  length, drop, ◌==◌, if◌then◌else◌,
}
use spiderframe.Base.Result.{Result, ok, undefined, out_of_fuel, ◌>>=◌}
use spiderframe.Perform.Record.{defined}
use spiderframe.Url.{find_sub, redurceurl}

-- `PATTERN_URL`, `PATTERN_HOST` and `PATTERN_HOSTPATH`, behind the C escapes
abbrev pub pattern_url : Text
pattern_url =
    bytes
      "(?im)(?<url>(http|https)://[\\w\\.\\-]+(:\\d+)?(/[\\w\\-\\.,%]*)*(\\??[\\w\\-\\.,%#&+=]*))|(?:href\\s*=\\s*['\"](?<hrefurl>([^'\"\\s]*)))"

abbrev pub pattern_host : Text
pattern_host = bytes "(?im)(?<host>(http|https):\\/\\/[\\w\\.-]+(:\\d+)?)"

abbrev pub pattern_hostpath : Text
pattern_hostpath = bytes "(?im)(?<hostpath>(http|https):\\/\\/[\\w\\.-]+(:\\d+)?\\/?.*\\/)"

-- What `outstr` is when the URL is inserted: NULL, the URL, or the link that the page wrote.
pub data Link : Type 0 where
  nothing : Link
  address href : Text → Link

-- `outstr` keeps its value where pcre_get_named_substring finds nothing: `freed` says that it points
-- to a string of an earlier round, which was freed.
unfoldable pub link_of : (freed : Bool) → (url hrefurl : Option Text) → Result Link
link_of freed (some (c ∷ u)) h = ok (Link.address (c ∷ u))
link_of freed (some []) (some h) = ok (Link.href h)
link_of freed (some []) none = undefined
link_of true none h = undefined
link_of false none (some h) = ok (Link.href h)
link_of false none none = ok nothing

abbrev pub is_link : Link → Bool
is_link nothing = false
is_link (Link.address u) = true
is_link (Link.href h) = true

-- `strstr(outstr, "://") == NULL`
abbrev pub is_relative : Option (Text × Text) → Bool
is_relative none = true
is_relative (some parts) = false

module _ {R M S : Type 0} (pcre_exec : R → Text → Option M) (match_end : M → ℕ)
    (named : R → M → Text → Text → Option Text) (compile : Text → R)
    (insert : Text → ℕ → S → Result S) where
  abbrev pub group_of : R → Text → Text → Option M → Option Text
  group_of re name url none = none
  group_of re name url (some m) = named re m url name

  unfoldable pub gethost : Text → Option Text
  gethost url =
      group_of (compile pattern_host) (bytes "host") url (pcre_exec (compile pattern_host) url)

  unfoldable pub gethostpath : Text → Option Text
  gethostpath url =
      group_of (compile pattern_hostpath) (bytes "hostpath") url
        (pcre_exec (compile pattern_hostpath) url)

  unfoldable pub host_of : Text → Text → Option Text
  host_of origurl [] = gethostpath origurl
  host_of origurl (c ∷ h) =
      if c == b'/' then gethost origurl else if c == b'?' then some origurl else gethostpath origurl

  abbrev pub on_host : Text → Option Text → Result (Option Text)
  on_host h none = ok none
  on_host h (some host) = do
    url ← defined (redurceurl (suc (length (host ++ h))) (host ++ h))
    ok (some url)

  -- A link as a URL, unless its host is not found.
  unfoldable pub resolve : Text → Text → Result (Option Text)
  resolve origurl h =
      if is_relative (find_sub (bytes "://") h) then on_host h (host_of origurl h) else ok (some h)

  abbrev pub insert_or_return : (S → Result S) → ℕ → S → Option Text → Result S
  insert_or_return next level s none = ok s
  insert_or_return next level s (some u) = do s' ← insert u level s; next s'

  abbrev pub visit : (S → Result S) → ℕ → Text → S → Link → Result S
  visit next level origurl s nothing = next s
  visit next level origurl s (Link.address u) = do s' ← insert u level s; next s'
  visit next level origurl s (Link.href h) = do
    found ← resolve origurl h
    insert_or_return next level s found

  abbrev pub on_match :
      (Bool → Text → S → Result S) → ℕ → Text → Bool → Text → S → Option M → Result S
  on_match next level origurl freed t s none = ok s
  on_match next level origurl freed t s (some m) = do
    let re = compile pattern_url
    link ← link_of freed (named re m t (bytes "url")) (named re m t (bytes "hrefurl"))
    visit (next (freed || is_link link) (drop (match_end m) t)) level origurl s link

  -- `while (1)`
  unfoldable pub href_loop : ℕ → ℕ → Text → Bool → Text → S → Result S
  href_loop zero level origurl freed t s = out_of_fuel
  href_loop (suc k) level origurl freed t s =
      on_match (href_loop k level origurl) level origurl freed t s
        (pcre_exec (compile pattern_url) t)

  unfoldable pub sf_pcre_get_href : (level : ℕ) → (buf origurl : Text) → S → Result S
  sf_pcre_get_href level buf origurl s = href_loop (suc (length buf)) level origurl false buf s
