-- ===== src/Href/Links.antt =====
-- `sf_pcre_get_href` against the list of the links of a page.
use spiderframe.Base.{
  length-drop, ℕ, zero, suc, ◌≤◌, ◌<◌, ◌≡◌, refl, sym, ap, ap₂, ◌∙◌, arith, ◌⊎◌, inl, inr, Bool,
  true, false, ◌||◌, Option, none, some, List, [], ◌∷◌, Text, bytes, length, drop, Option-cases,
  or_true,
}
use spiderframe.Base.Result.{Result, ok, ◌>>=◌, bind-cong}
use spiderframe.Href.{
  pattern_url, link_of, is_link, resolve, insert_or_return, visit, on_match, href_loop,
  sf_pcre_get_href,
}

module _ {R M S : Type 0} (pcre_exec : R → Text → Option M) (match_end : M → ℕ)
    (named : R → M → Text → Text → Option Text) (compile : Text → R)
    (insert : Text → ℕ → S → Result S) where
  -- The successive matches of PATTERN_URL, each with the text in which it was found.
  pub data Scan : Text → List (Text × M) → Type 0 where
    scan_end : (t : Text) → pcre_exec (compile pattern_url) t ≡ none → Scan t []
    scan_next :
        (t : Text) (m : M) (found : List (Text × M))
        → pcre_exec (compile pattern_url) t ≡ some m
        → Scan (drop (match_end m) t) found
        → Scan t ((t, m) ∷ found)

  abbrev pub target_of : Text → Option Text → Option Text → Result (Option Text)
  target_of origurl (some (c ∷ u)) h = ok (some (c ∷ u))
  target_of origurl u none = ok none
  target_of origurl u (some h) = resolve pcre_exec match_end named compile insert origurl h

  -- The URL of a match: what the group `url` holds, else the group `hrefurl` resolved.
  unfoldable pub target : Text → Text → M → Result (Option Text)
  target origurl t m =
      target_of origurl (named (compile pattern_url) m t (bytes "url"))
        (named (compile pattern_url) m t (bytes "hrefurl"))

  -- The URLs of the matches in turn, up to the first whose host is not found.
  unfoldable pub insert_all : ℕ → Text → List (Text × M) → S → Result S
  insert_all level origurl [] s = ok s
  insert_all level origurl ((t, m) ∷ found) s = do
    a ← target origurl t m
    insert_or_return pcre_exec match_end named compile insert (insert_all level origurl found) level
        s a

  -- A match of PATTERN_URL sets the group `url`, or leaves it empty and sets `hrefurl`, and it is not
  -- empty and lies in its subject.
  pub record Grouped (t : Text) (m : M) : Type 0 where
    pub groups :
        ((c : ℕ) × (u : Text) × (named (compile pattern_url) m t (bytes "url") ≡ some (c ∷ u)))
        ⊎ ((h : Text) × (named (compile pattern_url) m t (bytes "url") ≡ some [])
            × (named (compile pattern_url) m t (bytes "hrefurl") ≡ some h))
    pub above : 1 ≤ match_end m
    pub within : match_end m ≤ length t

  module _
      (grouped : (t : Text) (m : M)
        → pcre_exec (compile pattern_url) t ≡ some m
        → Grouped t m) where
    Scan-within : (k : ℕ) (t : Text) → length t < k → (found : List (Text × M)) × Scan t found
    Scan-within zero t lt = absurd (omega arith)
    Scan-within (suc k) t lt = elim (Option-cases (pcre_exec (compile pattern_url) t)) [
      | inl h ↦ ([], scan_end t h)
      | inr (m, h) ↦
          let g = grouped t m h in
          let a : 1 ≤ match_end m = g.above in
          let w : match_end m ≤ length t = g.within in
          let (found, sc) =
            Scan-within k (drop (match_end m) t) (omega (arith, length-drop (match_end m) t)) in
          ((t, m) ∷ found, scan_next t m found h sc)
    ]

    link_step :
        (next : Bool → S → Result S) (level : ℕ) (origurl : Text) (freed : Bool) (s : S)
        (u h : Option Text)
        → ((c : ℕ) × (w : Text) × (u ≡ some (c ∷ w))) ⊎ ((v : Text) × (u ≡ some []) × (h ≡ some v))
        → (link_of freed u h >>= λ link.
            visit pcre_exec match_end named compile insert
              (next (freed || is_link link))
              level
              origurl
              s
              link)
          ≡ (target_of origurl u h
              >>= insert_or_return pcre_exec match_end named compile insert (next true) level s)
    unfolding link_of
    link_step next level origurl freed s u h (inl (c, w, e)) =
        ap
          (λ u. link_of freed u h >>= λ link.
            visit pcre_exec match_end named compile insert (next (freed || is_link link)) level
              origurl s link)
          e
        ∙ ap (λ b. insert (c ∷ w) level s >>= next b) (or_true freed)
        ∙ sym (
            ap
              (λ u.
                target_of origurl u h
                >>= insert_or_return pcre_exec match_end named compile insert (next true) level s)
              e)
    link_step next level origurl freed s u h (inr (v, e, d)) =
        ap₂
          (λ u h. link_of freed u h >>= λ link.
            visit pcre_exec match_end named compile insert (next (freed || is_link link)) level
              origurl s link)
          e d
        ∙ ap
            (λ b.
              resolve pcre_exec match_end named compile insert origurl v
              >>= insert_or_return pcre_exec match_end named compile insert (next b) level s)
            (or_true freed)
        ∙ sym (
            ap₂
              (λ u h.
                target_of origurl u h
                >>= insert_or_return pcre_exec match_end named compile insert (next true) level s)
              e d)

    insert_or_return-cong :
        (next next' : S → Result S) (level : ℕ) (s : S) (a : Option Text)
        → ((s : S) → next s ≡ next' s)
        → insert_or_return pcre_exec match_end named compile insert next level s a
          ≡ insert_or_return pcre_exec match_end named compile insert next' level s a
    insert_or_return-cong next next' level s none h = refl
    insert_or_return-cong next next' level s (some u) h = bind-cong (insert u level s) h

    href_loop-insert_all :
        (k level : ℕ) (origurl : Text) (freed : Bool) (t : Text) (found : List (Text × M)) (s : S)
        → Scan t found
        → length t < k
        → href_loop pcre_exec match_end named compile insert k level origurl freed t s
          ≡ insert_all level origurl found s
    unfolding href_loop insert_all target
    href_loop-insert_all zero level origurl freed t found s sc lt = absurd (omega arith)
    href_loop-insert_all (suc k) level origurl freed t [] s (scan_end _ h) lt =
        ap
          (on_match pcre_exec match_end named compile insert
            (href_loop pcre_exec match_end named compile insert k level origurl) level origurl freed
            t s)
          h
    href_loop-insert_all (suc k) level origurl freed _ (_ ∷ _) s (scan_next t m found h sc) lt =
        let g = grouped t m h in
        let a : 1 ≤ match_end m = g.above in
        let w : match_end m ≤ length t = g.within in
        let rest = drop (match_end m) t in
        let loop = href_loop pcre_exec match_end named compile insert k level origurl in
        ap (on_match pcre_exec match_end named compile insert loop level origurl freed t s) h
        ∙ link_step (λ b s. loop b rest s) level origurl freed s _ _ g.groups
        ∙ bind-cong (target origurl t m) (λ o.
          insert_or_return-cong (loop true rest) (insert_all level origurl found) level s o (λ s.
            href_loop-insert_all k level origurl true rest found s sc
              (omega (arith, length-drop (match_end m) t))))

    -- When every match of PATTERN_URL is not empty, lies in its subject and sets the group `url` or
    -- else `hrefurl`, sf_pcre_get_href ends on every page: with the list of the successive matches it
    -- inserts the URL of each in turn, with the given level, until one is relative and has no host,
    -- which ends it, or an insertion or the
    -- reduction of a URL does not return. It never uses a freed string.
    pub get_href-insert_all :
        (level : ℕ) (buf origurl : Text) (s : S)
        → (found : List (Text × M)) × Scan buf found
          × (sf_pcre_get_href pcre_exec match_end named compile insert level buf origurl s
              ≡ insert_all level origurl found s)
    unfolding sf_pcre_get_href
    get_href-insert_all level buf origurl s =
        let (found, sc) = Scan-within (suc (length buf)) buf (omega arith) in
        (
          found,
          sc,
          href_loop-insert_all (suc (length buf)) level origurl false buf found s sc (omega arith),
        )
