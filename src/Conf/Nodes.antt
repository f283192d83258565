-- ===== src/Conf/Nodes.antt =====
-- The children of a configuration's root, kind by kind.
use spiderframe.Base.{
  ℕ, ◌≡◌, refl, Bool, true, false, Option, List, [], ◌∷◌, ◌++◌, Text, bytes, text_eq, if◌then◌else◌,
}
use spiderframe.Base.Result.{Result, ok, ◌>>=◌}
use spiderframe.Proc.{Range}
use spiderframe.Policy.{Policy}
use spiderframe.Perform.Record.{Env}
use spiderframe.Conf.{
  Conf, new_policy, sf_conf_policy, new_range, sf_conf_range, sf_conf_headers, header_nodes,
}
use spiderframe.Conf.Document.{
  Document, sf_conf_vars, with_policy, with_range, with_vars, conf_node,
}

-- What a child is, by its name.
pub data Kind : Type 0 where
  policy_kind range_kind vars_kind headers_kind other_kind : Kind

abbrev pub kind_by : Bool → Bool → Bool → Bool → Kind
kind_by p r v h =
    if p
    then policy_kind
    else if r
    then range_kind
    else if v
    then vars_kind
    else if h
    then headers_kind
    else other_kind

-- The first before the others, the last first.
abbrev pub reverse_onto : {A : Type 0} → List A → List A → List A
reverse_onto [] ys = ys
reverse_onto (x ∷ xs) ys = reverse_onto xs (x ∷ ys)

pub ok_inj : {A : Type 0} (a b : A) → ok a ≡ ok b → a ≡ b
ok_inj a b h = cc

module _ {N R : Type 0} (name : N → Text) (prop : N → Text → Option Text) (children : N → List N)
    (pcre_compile : Text → Option R) (read_file : Text → Document N) where
  unfoldable pub kind_of : N → Kind
  kind_of node =
      kind_by (text_eq (name node) (bytes "policy")) (text_eq (name node) (bytes "range"))
        (text_eq (name node) (bytes "vars")) (text_eq (name node) (bytes "headers"))

  abbrev pub by_kind : ℕ → Kind → N → Conf R × Env → Result (Conf R × Env)
  by_kind k policy_kind node x =
      with_policy name prop children read_file pcre_compile x
        (sf_conf_policy name prop children pcre_compile (children node) x.0.policy)
  by_kind k range_kind node x =
      with_range name prop children read_file pcre_compile x
        (sf_conf_range name prop children pcre_compile node x.0.range)
  by_kind k vars_kind node x =
      with_vars name prop children read_file pcre_compile x
        (sf_conf_vars name prop children read_file k node x.1)
  by_kind k headers_kind node x = ok (
    record x.0 { headers = sf_conf_headers name prop children pcre_compile node x.0.headers },
    x.1,
  )
  by_kind k other_kind node x = ok x

  pub conf_node-by_kind :
      (k : ℕ) (node : N) (x : Conf R × Env)
      → conf_node name prop children read_file pcre_compile k node x
        ≡ by_kind k (kind_of node) node x
  unfolding kind_of
  conf_node-by_kind k node (c, env) =
      by_tests (text_eq (name node) (bytes "policy")) (text_eq (name node) (bytes "range"))
        (text_eq (name node) (bytes "vars")) (text_eq (name node) (bytes "headers"))
    where
      by_tests :
          (p r v h : Bool)
          → (if p
              then by_kind k policy_kind node (c, env)
              else if r
              then by_kind k range_kind node (c, env)
              else if v
              then by_kind k vars_kind node (c, env)
              else if h
              then by_kind k headers_kind node (c, env)
              else ok (c, env))
            ≡ by_kind k (kind_by p r v h) node (c, env)
      by_tests true r v h = refl
      by_tests false true v h = refl
      by_tests false false true h = refl
      by_tests false false false true = refl
      by_tests false false false false = refl

  abbrev pub add_policy : Kind → N → Result (List (Policy R)) → Result (List (Policy R))
  add_policy policy_kind node rest = do
    p ← new_policy name prop children pcre_compile (children node)
    ps ← rest
    ok (p ∷ ps)
  add_policy range_kind node rest = rest
  add_policy vars_kind node rest = rest
  add_policy headers_kind node rest = rest
  add_policy other_kind node rest = rest

  abbrev pub add_range : Kind → N → Result (List (Range R)) → Result (List (Range R))
  add_range range_kind node rest = do
    r ← new_range name prop children pcre_compile node
    rs ← rest
    ok (r ∷ rs)
  add_range policy_kind node rest = rest
  add_range vars_kind node rest = rest
  add_range headers_kind node rest = rest
  add_range other_kind node rest = rest

  abbrev pub add_headers : Kind → N → List Text → List Text
  add_headers headers_kind node rest =
      header_nodes name prop children pcre_compile (children node) [] ++ rest
  add_headers policy_kind node rest = rest
  add_headers range_kind node rest = rest
  add_headers vars_kind node rest = rest
  add_headers other_kind node rest = rest

  abbrev pub add_vars : ℕ → Kind → N → (Env → Result Env) → Env → Result Env
  add_vars k vars_kind node rest env = do
    env' ← sf_conf_vars name prop children read_file k node env
    rest env'
  add_vars k policy_kind node rest env = rest env
  add_vars k range_kind node rest env = rest env
  add_vars k headers_kind node rest env = rest env
  add_vars k other_kind node rest env = rest env

  -- The policies, ranges, headers and variables of the children, in their order.
  unfoldable pub policies_of : List N → Result (List (Policy R))
  policies_of [] = ok []
  policies_of (node ∷ nodes) = add_policy (kind_of node) node (policies_of nodes)

  unfoldable pub ranges_of : List N → Result (List (Range R))
  ranges_of [] = ok []
  ranges_of (node ∷ nodes) = add_range (kind_of node) node (ranges_of nodes)

  unfoldable pub headers_of : List N → List Text
  headers_of [] = []
  headers_of (node ∷ nodes) = add_headers (kind_of node) node (headers_of nodes)

  unfoldable pub vars_of : ℕ → List N → Env → Result Env
  vars_of k [] env = ok env
  vars_of k (node ∷ nodes) env = add_vars k (kind_of node) node (vars_of k nodes) env

  -- From `x` to `x'` what these lists hold was added, and the attributes of the root are kept.
  pub record Added (policies : Result (List (Policy R))) (ranges : Result (List (Range R)))
      (headers : List Text) (vars : Env → Result Env) (x x' : Conf R × Env) : Type 0 where
    pub ps : List (Policy R)
    pub policies_run : policies ≡ ok ps
    pub policy : x'.0.policy ≡ reverse_onto ps x.0.policy
    pub rs : List (Range R)
    pub ranges_run : ranges ≡ ok rs
    pub range : x'.0.range ≡ x.0.range ++ rs
    pub header : x'.0.headers ≡ x.0.headers ++ headers
    pub var : vars x.1 ≡ ok x'.1
    pub attributes :
        record x'.0 { policy = []; range = []; headers = [] }
        ≡ record x.0 { policy = []; range = []; headers = [] }
