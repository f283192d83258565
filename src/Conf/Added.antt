-- ===== src/Conf/Added.antt =====
-- The loop of `sf_conf_init` over the children of the root.
use spiderframe.Base.{
  ℕ, ◌≡◌, refl, sym, ap, ◌∙◌, append_assoc, append-nil, subst, Bool, true, false, Option, none,
  some, List, [], ◌∷◌, ◌++◌, Text, bytes, if◌then◌else◌,
}
use spiderframe.Base.Result.{Result, ok, ◌>>=◌, >>=-ok}
use spiderframe.Proc.{Range}
use spiderframe.Policy.{Policy}
use spiderframe.Perform.Record.{Env}
use spiderframe.Conf.{
  Conf, new_policy, sf_conf_policy, new_range, sf_conf_range, header_nodes, append_value, is_node,
}
use spiderframe.Conf.Document.{Document, sf_conf_vars, conf_node, conf_nodes}
use spiderframe.Conf.Nodes.{
  Kind, policy_kind, range_kind, vars_kind, headers_kind, other_kind, ok_inj, kind_of, by_kind,
  conf_node-by_kind, add_policy, add_range, add_headers, add_vars, policies_of, ranges_of,
  headers_of, vars_of, Added,
}

module _ {N R : Type 0} (name : N → Text) (prop : N → Text → Option Text) (children : N → List N)
    (pcre_compile : Text → Option R) (read_file : Text → Document N) where
  header_nodes-append :
      (nodes : List N) (hs : List Text)
      → header_nodes name prop children pcre_compile nodes hs
        ≡ hs ++ header_nodes name prop children pcre_compile nodes []
  unfolding header_nodes
  header_nodes-append [] hs = sym (append-nil hs)
  header_nodes-append (node ∷ nodes) hs =
      let all = header_nodes name prop children pcre_compile nodes in
      let put = λ (hs : List Text).
        if is_node name prop children pcre_compile node (bytes "header")
        then append_value name prop children pcre_compile (prop node (bytes "value")) hs
        else hs in
      ap all (
        put_append (is_node name prop children pcre_compile node (bytes "header"))
          (prop node (bytes "value")))
      ∙ header_nodes-append nodes (hs ++ put [])
      ∙ append_assoc hs (put []) (all [])
      ∙ sym (ap (λ l. hs ++ l) (header_nodes-append nodes (put [])))
    where
      put_append :
          (b : Bool) (v : Option Text)
          → (if b then append_value name prop children pcre_compile v hs else hs)
            ≡ hs ++ (if b then append_value name prop children pcre_compile v [] else [])
      put_append true none = sym (append-nil hs)
      put_append true (some v) = refl
      put_append false v = sym (append-nil hs)

  module _ (k : ℕ) (node : N) (policies : Result (List (Policy R)))
      (ranges : Result (List (Range R))) (headers : List Text) (vars : Env → Result Env) where
    -- A node of this kind adds what it should.
    Adds : Kind → Type 0
    Adds kd =
        (x x' x2 : Conf R × Env)
        → by_kind name prop children pcre_compile read_file k kd node x ≡ ok x'
        → Added name prop children pcre_compile read_file policies ranges headers vars x' x2
        → Added name prop children pcre_compile read_file
            (add_policy name prop children pcre_compile read_file kd node policies)
            (add_range name prop children pcre_compile read_file kd node ranges)
            (add_headers name prop children pcre_compile read_file kd node headers)
            (add_vars name prop children pcre_compile read_file k kd node vars) x x2

    policy-Adds : Adds policy_kind
    unfolding Adds sf_conf_policy
    policy-Adds (c, env) x' x2 run b =
        let (ps, r1, e1) = >>=-ok _ _ run in
        let (p, r2, e2) =
          >>=-ok (new_policy name prop children pcre_compile (children node)) _ r1 in
        let after : List (Policy R) → Conf R × Env = λ ps. (record c { policy = ps }, env) in
        let q : x' ≡ after (p ∷ c.policy) = sym (ok_inj _ _ e1) ∙ ap after (sym (ok_inj _ _ e2)) in
        let a : Added name prop children pcre_compile read_file policies ranges headers vars
            (after (p ∷ c.policy)) x2 =
          subst
            (λ x'.
              Added name prop children pcre_compile read_file policies ranges headers vars x' x2)
            q b in
        record {
          ps = p ∷ a.ps;
          policies_run =
              ap (λ r. r >>= λ p. policies >>= λ ps. ok (p ∷ ps)) r2
              ∙ ap (λ r. r >>= λ ps. ok (p ∷ ps)) a.policies_run;
          policy = a.policy;
          rs = a.rs;
          ranges_run = a.ranges_run;
          range = a.range;
          header = a.header;
          var = a.var;
          attributes = a.attributes;
        }

    range-Adds : Adds range_kind
    unfolding Adds sf_conf_range
    range-Adds (c, env) x' x2 run b =
        let (rs, r1, e1) = >>=-ok _ _ run in
        let (r, r2, e2) = >>=-ok (new_range name prop children pcre_compile node) _ r1 in
        let after : List (Range R) → Conf R × Env = λ rs. (record c { range = rs }, env) in
        let q : x' ≡ after (c.range ++ r ∷ []) =
          sym (ok_inj _ _ e1) ∙ ap after (sym (ok_inj _ _ e2)) in
        let a : Added name prop children pcre_compile read_file policies ranges headers vars
            (after (c.range ++ r ∷ [])) x2 =
          subst
            (λ x'.
              Added name prop children pcre_compile read_file policies ranges headers vars x' x2)
            q b in
        record {
          ps = a.ps;
          policies_run = a.policies_run;
          policy = a.policy;
          rs = r ∷ a.rs;
          ranges_run =
              ap (λ o. o >>= λ r. ranges >>= λ rs. ok (r ∷ rs)) r2
              ∙ ap (λ o. o >>= λ rs. ok (r ∷ rs)) a.ranges_run;
          range = a.range ∙ append_assoc c.range (r ∷ []) a.rs;
          header = a.header;
          var = a.var;
          attributes = a.attributes;
        }

    vars-Adds : Adds vars_kind
    unfolding Adds
    vars-Adds (c, env) x' x2 run b =
        let (env', r1, e1) = >>=-ok (sf_conf_vars name prop children read_file k node env) _ run in
        let a : Added name prop children pcre_compile read_file policies ranges headers vars
            (c, env') x2 =
          subst
            (λ x'.
              Added name prop children pcre_compile read_file policies ranges headers vars x' x2)
            (sym (ok_inj _ _ e1)) b in
        record {
          ps = a.ps;
          policies_run = a.policies_run;
          policy = a.policy;
          rs = a.rs;
          ranges_run = a.ranges_run;
          range = a.range;
          header = a.header;
          var = ap (λ r. r >>= vars) r1 ∙ a.var;
          attributes = a.attributes;
        }

    headers-Adds : Adds headers_kind
    unfolding Adds
    headers-Adds (c, env) x' x2 run b =
        let all = header_nodes name prop children pcre_compile (children node) in
        let after : List Text → Conf R × Env = λ hs. (record c { headers = hs }, env) in
        let q : x' ≡ after (c.headers ++ all []) =
          sym (ok_inj _ _ run) ∙ ap after (header_nodes-append (children node) c.headers) in
        let a : Added name prop children pcre_compile read_file policies ranges headers vars
            (after (c.headers ++ all [])) x2 =
          subst
            (λ x'.
              Added name prop children pcre_compile read_file policies ranges headers vars x' x2)
            q b in
        record {
          ps = a.ps;
          policies_run = a.policies_run;
          policy = a.policy;
          rs = a.rs;
          ranges_run = a.ranges_run;
          range = a.range;
          header = a.header ∙ append_assoc c.headers (all []) headers;
          var = a.var;
          attributes = a.attributes;
        }

    kind-Adds : (kd : Kind) → Adds kd
    unfolding Adds
    kind-Adds policy_kind = policy-Adds
    kind-Adds range_kind = range-Adds
    kind-Adds vars_kind = vars-Adds
    kind-Adds headers_kind = headers-Adds
    kind-Adds other_kind = λ x x' x2 run b.
        subst
          (λ x. Added name prop children pcre_compile read_file policies ranges headers vars x x2)
          (sym (ok_inj _ _ run)) b

  -- When the loop of sf_conf_init over the children of the root returns, it has read them kind by
  -- kind: the policies stand in front of those there were, the last of the document first; the
  -- ranges and the headers stand behind, in the order of the document; the variables of the `vars`
  -- nodes are set one node after the other; and the attributes of the root are kept.
  pub conf_nodes-Added :
      (k : ℕ) (nodes : List N) (x x' : Conf R × Env)
      → conf_nodes name prop children read_file pcre_compile k nodes x ≡ ok x'
      → Added name prop children pcre_compile read_file
          (policies_of name prop children pcre_compile read_file nodes)
          (ranges_of name prop children pcre_compile read_file nodes)
          (headers_of name prop children pcre_compile read_file nodes)
          (vars_of name prop children pcre_compile read_file k nodes)
          x
          x'
  unfolding conf_nodes policies_of ranges_of headers_of vars_of Adds
  conf_nodes-Added k [] x x' run =
      subst
        (λ x'.
          Added name prop children pcre_compile read_file (ok []) (ok []) [] (λ env. ok env) x x')
        (ok_inj _ _ run)
        (record {
          ps = [];
          policies_run = refl;
          policy = refl;
          rs = [];
          ranges_run = refl;
          range = sym (append-nil x.0.range);
          header = sym (append-nil x.0.headers);
          var = refl;
          attributes = refl;
        })
  conf_nodes-Added k (node ∷ nodes) x x2 run =
      let (x', r, rest) =
        >>=-ok (conf_node name prop children read_file pcre_compile k node x) _ run in
      kind-Adds k node (policies_of name prop children pcre_compile read_file nodes)
        (ranges_of name prop children pcre_compile read_file nodes)
        (headers_of name prop children pcre_compile read_file nodes)
        (vars_of name prop children pcre_compile read_file k nodes)
        (kind_of name prop children pcre_compile read_file node) x x' x2
        (sym (conf_node-by_kind name prop children pcre_compile read_file k node x) ∙ r)
        (conf_nodes-Added k nodes x' x2 rest)
