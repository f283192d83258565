-- ===== src/Curl/Fetch.antt =====
-- When a download succeeds.
use spiderframe.Base.{
  ℕ, ◌≡◌, refl, ap, ◌∙◌, Option, subst⁻¹, Bool, true, false, ◌&&◌, ◌||◌, subst, some, List, [], ◌∷◌,
  ◌++◌, arith, Text, if◌then◌else◌, Bool-cases, inl, inr,
}
use spiderframe.Template.{Outcome, done, overflow}
use spiderframe.Curl.Format.{Formats, Converts, Printed, prints, stray, print_format-Printed}
use spiderframe.Curl.{
  Opt, Step, may, must, must_free, slist, Request, Conn, Fetched, setup_steps, run_steps, attempts,
  cleanup, free_all, print_format, performed, after_setup, fresh_conn, remember, next_do,
  sf_curl_url,
}

module _ (accepts : List Opt → Opt → Bool) where
  -- libcurl accepts every option that has to be set, in the order of the calls.
  pub accepted : List Opt → List Step → Bool
  accepted before [] = true
  accepted before (may o ∷ steps) =
      accepted (if accepts before o then before ++ o ∷ [] else before) steps
  accepted before (must o ∷ steps) = accepts before o && accepted (before ++ o ∷ []) steps
  accepted before (must_free o ∷ steps) = accepts before o && accepted (before ++ o ∷ []) steps
  accepted before (slist ∷ steps) = accepted before steps

  options-if :
      (b : Bool) (c : Conn) (o : Opt)
      → (if b then remember c o else c).options ≡ (if b then c.options ++ o ∷ [] else c.options)
  options-if true c o = refl
  options-if false c o = refl

  run_steps-success :
      (steps : List Step) (c : Conn) → (run_steps accepts steps c).0 ≡ accepted c.options steps
  unfolding run_steps accepted
  run_steps-success [] c = refl
  run_steps-success (may o ∷ steps) c =
      run_steps-success steps (if accepts c.options o then remember c o else c)
      ∙ ap (λ before. accepted before steps) (options-if (accepts c.options o) c o)
  run_steps-success (must o ∷ steps) c = elim (Bool-cases (accepts c.options o)) [
    | inl e ↦ rw e (run_steps-success steps (remember c o))
    | inr e ↦ rw e refl
  ]
  run_steps-success (must_free o ∷ steps) c = elim (Bool-cases (accepts c.options o)) [
    | inl e ↦ rw e (run_steps-success steps (remember c o))
    | inr e ↦ rw e refl
  ]
  run_steps-success (slist ∷ steps) c = run_steps-success steps (record c { listed = true })

  -- A failure has closed the connection.
  run_steps-closed :
      (steps : List Step) (c : Conn)
      → (run_steps accepts steps c).0 ≡ false
      → (run_steps accepts steps c).1.connected ≡ false
  unfolding run_steps
  run_steps-closed [] c h = ground arith
  run_steps-closed (may o ∷ steps) c h =
      run_steps-closed steps (if accepts c.options o then remember c o else c) h
  run_steps-closed (must o ∷ steps) c h = elim (Bool-cases (accepts c.options o)) [
    | inl e ↦ rw e (run_steps-closed steps (remember c o) (rw e at h))
    | inr e ↦ rw e refl
  ]
  run_steps-closed (must_free o ∷ steps) c h = elim (Bool-cases (accepts c.options o)) [
    | inl e ↦ rw e (run_steps-closed steps (remember c o) (rw e at h))
    | inr e ↦ rw e refl
  ]
  run_steps-closed (slist ∷ steps) c h = run_steps-closed steps (record c { listed = true }) h

-- One of three attempts succeeds.
abbrev pub one_of_three : (ℕ → Bool) → Bool
one_of_three performs = performs 0 || performs 1 || performs 2

-- The outcomes, by whether every option is accepted, and whether an attempt succeeds.
pub data Ends (u : Text) : (all_set one : Bool) → Outcome (Option Fetched) → Type 0 where
  not_set :
      (one : Bool) (f : Fetched)
      → f.success ≡ false
      → f.failures ≡ []
      → f.conn.connected ≡ false
      → Ends u false one (done (some f))
  fetched :
      (f : Fetched)
      → f.success ≡ true
      → f.failures ≡ []
      → f.conn.connected ≡ false
      → Ends u true true (done (some f))
  failed :
      (f : Fetched) (line : Text)
      → Formats u line
      → f.success ≡ false
      → f.failures ≡ line ∷ []
      → f.conn.connected ≡ false
      → Ends u true false (done (some f))
  failed_format : Converts u → Ends u true false overflow

returned : Outcome Fetched → Outcome (Option Fetched)
returned o = next_do o (λ f. done (some f))

failed-Ends :
    (u : Text) (c : Conn) (o : Outcome Text)
    → Printed u o
    → Ends u true false (
        returned (
          next_do o (λ line.
            done (record { success = false; conn = cleanup (free_all c); failures = line ∷ [] }))))
unfolding returned
failed-Ends u c o (prints t m) = failed _ t m refl refl refl
failed-Ends u c o (stray m) = failed_format m

performed-Ends :
    (performs : ℕ → Bool) (u : Text) (c : Conn)
    → Ends u true (one_of_three performs) (returned (performed u c (attempts performs 3 0)))
unfolding attempts returned
performed-Ends performs u c = elim (Bool-cases (performs 0)) [
  | inl e ↦ rw e (fetched _ refl refl refl)
  | inr e ↦ elim (Bool-cases (performs 1)) [
    | inl e' ↦ rw (e, e') (fetched _ refl refl refl)
    | inr e' ↦ elim (Bool-cases (performs 2)) [
      | inl e'' ↦ rw (e, e', e'') (fetched _ refl refl refl)
      | inr e'' ↦ rw (e, e', e'') (failed-Ends u c (print_format u) (print_format-Printed u))
    ]
  ]
]

after_setup-Ends :
    (performs : ℕ → Bool) (u : Text) (r : Bool × Conn)
    → (r.0 ≡ false → r.1.connected ≡ false)
    → Ends u r.0 (one_of_three performs) (returned (after_setup performs u r))
unfolding returned
after_setup-Ends performs u (true, c) closed = performed-Ends performs u c
after_setup-Ends performs u (false, c) closed =
    not_set (one_of_three performs) _ refl refl (closed refl)

-- If a connection is created, and the patterns of the configuration expand to the calls `steps`,
-- then sf_curl_url returns the page if and only if libcurl accepts every option that has to be set
-- and one of three attempts succeeds, and it closes the connection whenever it returns. If all is
-- accepted and no attempt succeeds, it writes to the file of failures what the URL prints as a
-- format, each `%%` as one `%`, and what it does is undefined when another `%` stands in the URL.
-- In the other cases it writes nothing there.
pub sf_curl_url-Ends :
    (exp : Text → Outcome Text) (accepts : List Opt → Opt → Bool) (performs : ℕ → Bool)
    (r : Request) (u : Text) (steps : List Step)
    → setup_steps exp r u ≡ done steps
    → Ends u
        (accepted accepts [] steps)
        (one_of_three performs)
        (sf_curl_url exp accepts performs true r u)
unfolding sf_curl_url returned
sf_curl_url-Ends exp accepts performs r u steps e =
    let run = run_steps accepts steps fresh_conn in
    subst⁻¹
      (λ (o : Outcome (List Step)). Ends u (accepted accepts [] steps) (one_of_three performs) (
        next_do o
          (λ calls. returned (after_setup performs u (run_steps accepts calls fresh_conn)))))
      e
      (subst
        (λ (b : Bool). Ends u b (one_of_three performs) (returned (after_setup performs u run)))
        (run_steps-success accepts steps fresh_conn)
        (after_setup-Ends performs u run (run_steps-closed accepts steps fresh_conn)))
