-- ===== src/Conf/Include.antt =====
-- Files of variables that include one another.
use spiderframe.Base.{
  ℕ, zero, suc, ◌≤◌, ◌<◌, ◌≡◌, refl, ap, ◌∙◌, arith, Option, none, some, List, Text, bytes,
}
use spiderframe.Base.Result.{Result, ok, out_of_fuel, ◌>>=◌}
use spiderframe.Perform.Record.{Env}
use spiderframe.Conf.Document.{
  Document, no_document, empty_document, root, sf_conf_vars_include, include_file, var_nodes,
  sf_conf_vars,
}
use spiderframe.Conf.Given.{or_else, last_given, var_nodes-last_given}

module _ {N : Type 0} (name : N → Text) (prop : N → Text → Option Text) (children : N → List N)
    (read_file : Text → Document N) where
  -- What a `vars` node declares: each variable has the value of the last child that gives it one, or
  -- else what the file that the node includes leaves it.
  mutual
    pub data Declares : N → Env → Env → Type 0 where
      declares :
          (node : N) (env env' env'' : Env)
          → Includes (prop node (bytes "include")) env env'
          → ((n : Text) → env'' n ≡ or_else (last_given name prop (children node) n) (env' n))
          → Declares node env env''

    pub data Includes : Option Text → Env → Env → Type 0 where
      no_include : (env : Env) → Includes none env env
      no_file : (fn : Text) (env : Env) → read_file fn ≡ no_document → Includes (some fn) env env
      empty_file :
          (fn : Text) (env : Env) → read_file fn ≡ empty_document → Includes (some fn) env env
      file :
          (fn : Text) (node : N) (env env' : Env)
          → read_file fn ≡ root node
          → Declares node env env'
          → Includes (some fn) env env'

  -- The file that an attribute names is below `d`.
  abbrev pub Below : (Text → ℕ) → ℕ → Option Text → Type 0
  Below rank d none = Unit
  Below rank d (some fn) = rank fn < d

  abbrev pub need : (Text → ℕ) → Option Text → ℕ
  need rank none = 1
  need rank (some fn) = suc (suc (rank fn))

  need-le : (rank : Text → ℕ) (d : ℕ) (o : Option Text) → Below rank d o → need rank o ≤ suc d
  need-le rank d none h = omega arith
  need-le rank d (some fn) h = omega arith

  module _ (rank : Text → ℕ)
      (falls : (fn : Text) (node : N)
        → read_file fn ≡ root node
        → Below rank (rank fn) (prop node (bytes "include"))) where
    -- The node is read with this fuel.
    Reads : ℕ → Type 0
    Reads k =
        (node : N) (env : Env)
        → need rank (prop node (bytes "include")) ≤ k
        → (env' : Env) × (sf_conf_vars name prop children read_file k node env ≡ ok env')
          × Declares node env env'

    abbrev vars_of : ℕ → N → Env → Result Env
    vars_of k = sf_conf_vars name prop children read_file k

    document_ends :
        (k : ℕ) (fn : Text) (env : Env) (d : Document N)
        → Reads k
        → read_file fn ≡ d
        → suc (rank fn) ≤ k
        → (env' : Env) × (include_file name prop children read_file (vars_of k) (some fn) env
            ≡ ok env')
          × Includes (some fn) env env'
    unfolding Reads
    document_ends k fn env no_document ih h le = (
      env,
      ap (λ d. sf_conf_vars_include name prop children read_file (vars_of k) d env) h,
      no_file fn env h,
    )
    document_ends k fn env empty_document ih h le = (
      env,
      ap (λ d. sf_conf_vars_include name prop children read_file (vars_of k) d env) h,
      empty_file fn env h,
    )
    document_ends k fn env (root node) ih h le =
        let (env', run, m) =
          ih node env (
            omega
              (arith, need-le rank (rank fn) (prop node (bytes "include")) (falls fn node h))) in
        (
          env',
          ap (λ d. sf_conf_vars_include name prop children read_file (vars_of k) d env) h ∙ run,
          file fn node env env' h m,
        )

    include_ends :
        (k : ℕ) (env : Env) (o : Option Text)
        → Reads k
        → need rank o ≤ suc k
        → (env' : Env) × (include_file name prop children read_file (vars_of k) o env ≡ ok env')
          × Includes o env env'
    include_ends k env none ih le = (env, refl, no_include env)
    include_ends k env (some fn) ih le = document_ends k fn env (read_file fn) ih refl (omega arith)

    reads : (k : ℕ) → Reads k
    unfolding Reads sf_conf_vars
    reads zero node env le = absurd (need_zero (prop node (bytes "include")) le)
      where
        need_zero : (o : Option Text) → need rank o ≤ 0 → ⊥
        need_zero none le = omega arith
        need_zero (some fn) le = omega arith
    reads (suc k) node env le =
        let (env', run, m) = include_ends k env (prop node (bytes "include")) (reads k) le in
        (
          var_nodes name prop children read_file (children node) env',
          ap (λ r. r >>= λ env'. ok (var_nodes name prop children read_file (children node) env'))
              run,
          declares node env env' _ m
              (var_nodes-last_given name prop children read_file (children node) env'),
        )

    -- When files have ranks such that each includes only a file of a smaller rank, sf_conf_vars ends
    -- on every node and any variables, with more fuel than the rank of the file that the node
    -- includes and one. A variable then has the value of the last child `var` of the node with its
    -- name and a value; if there is none, what the included file declares for it in the same way, as
    -- far as that can be read, and else what it had before.
    pub sf_conf_vars-Declares :
        (k : ℕ) (node : N) (env : Env)
        → need rank (prop node (bytes "include")) ≤ k
        → (env' : Env) × (sf_conf_vars name prop children read_file k node env ≡ ok env')
          × Declares node env env'
    unfolding Reads
    sf_conf_vars-Declares k node env le = reads k node env le

  -- Files each of which includes another of them, or itself.
  module _ (Cyclic : Text → Type 0)
      (again : (fn : Text)
        → Cyclic fn
        → (node : N) × (g : Text) × (read_file fn ≡ root node)
          × (prop node (bytes "include") ≡ some g)
          × Cyclic g) where
    -- A node that includes one of the files that include one another in circles, or itself: no
    -- fuel is enough for sf_conf_vars, which calls itself without end.
    pub sf_conf_vars_hang :
        (k : ℕ) (node : N) (env : Env) (fn : Text)
        → prop node (bytes "include") ≡ some fn
        → Cyclic fn
        → sf_conf_vars name prop children read_file k node env ≡ out_of_fuel
    unfolding sf_conf_vars
    sf_conf_vars_hang zero node env fn h c = refl
    sf_conf_vars_hang (suc k) node env fn h c =
        let (node', g, read, h', c') = again fn c in
        let finish : Env → Result Env =
          λ env'. ok (var_nodes name prop children read_file (children node) env') in
        ap
          (λ o.
            include_file name prop children read_file (sf_conf_vars name prop children read_file k)
              o env
            >>= finish)
          h
        ∙ ap
            (λ d.
              sf_conf_vars_include name prop children read_file
                (sf_conf_vars name prop children read_file k) d env
              >>= finish)
            read
        ∙ ap (λ r. r >>= finish) (sf_conf_vars_hang k node' env g h' c')
