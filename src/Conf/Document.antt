-- ===== src/Conf/Document.antt =====
-- sf_conf.c: the variables of a configuration and the files they include, and the whole document.
use spiderframe.Base.{
  ℕ, zero, suc, Option, none, some, List, [], ◌∷◌, Text, bytes, text_eq, if◌then◌else◌,
}
use spiderframe.Base.Int.{pos}
use spiderframe.Base.Result.{Result, ok, out_of_fuel, ◌>>=◌}
use spiderframe.Var.{sf_var_create}
use spiderframe.Proc.{Range}
use spiderframe.Policy.{Policy}
use spiderframe.Perform.Record.{Env, bind_name}
use spiderframe.Conf.{Conf, int_or, string_or, sf_conf_policy, sf_conf_range, sf_conf_headers}

-- What reading a file gives.
pub data Document (N : Type 0) : Type 0 where
  no_document empty_document : Document N
  root : N → Document N

-- `IE_UA` of sf_ua.h
abbrev pub ie_ua : Text
ie_ua = bytes "Mozilla/4.0 (compatible; MSIE 8.0; Windows NT 6.0; Trident/4.0)"

module _ {N : Type 0} (name : N → Text) (prop : N → Text → Option Text) (children : N → List N)
    (read_file : Text → Document N) where
  abbrev pub set_var : Option Text → Option Text → Env → Env
  set_var (some varn) (some varv) env =
      bind_name env varn (some (sf_var_create varn (some varv)).value)
  set_var (some varn) none env = env
  set_var none varv env = env

  unfoldable pub var_nodes : List N → Env → Env
  var_nodes [] env = env
  var_nodes (node ∷ nodes) env = var_nodes nodes (
      if text_eq (name node) (bytes "var")
      then set_var (prop node (bytes "name")) (prop node (bytes "value")) env
      else env)

  -- `vars` is sf_conf_vars; what is returned is not looked at.
  abbrev pub sf_conf_vars_include : (N → Env → Result Env) → Document N → Env → Result Env
  sf_conf_vars_include vars no_document env = ok env
  sf_conf_vars_include vars empty_document env = ok env
  sf_conf_vars_include vars (root node) env = vars node env

  abbrev pub include_file : (N → Env → Result Env) → Option Text → Env → Result Env
  include_file vars none env = ok env
  include_file vars (some fn) env = sf_conf_vars_include vars (read_file fn) env

  -- The fuel bounds how deep files include one another.
  unfoldable pub sf_conf_vars : ℕ → N → Env → Result Env
  sf_conf_vars zero node env = out_of_fuel
  sf_conf_vars (suc k) node env = do
    env' ← include_file (sf_conf_vars k) (prop node (bytes "include")) env
    ok (var_nodes (children node) env')

  module _ {R : Type 0} (pcre_compile : Text → Option R) where
    -- The attributes of the root, over a structure that is zeroed.
    abbrev pub conf_attributes : N → Conf R
    conf_attributes node = record {
      url_count = int_or (prop node (bytes "url_count")) (pos 1);
      url_level = int_or (prop node (bytes "url_level")) (pos 1);
      interval = int_or (prop node (bytes "interval")) (pos 0);
      method = string_or (prop node (bytes "method")) (bytes "GET");
      post_data = string_or (prop node (bytes "post_data")) [];
      user_agent = string_or (prop node (bytes "user_agent")) ie_ua;
      url_suffix = prop node (bytes "url_suffix");
      url_feedback = int_or (prop node (bytes "url_feedback")) (pos 0);
      policy = [];
      range = [];
      headers = [];
    }

    -- The new value of a field, and the variables.
    abbrev pub with_policy : Conf R × Env → Result (List (Policy R)) → Result (Conf R × Env)
    with_policy (c, env) r = do ps ← r; ok (record c { policy = ps }, env)

    abbrev pub with_range : Conf R × Env → Result (List (Range R)) → Result (Conf R × Env)
    with_range (c, env) r = do rs ← r; ok (record c { range = rs }, env)

    abbrev pub with_vars : Conf R × Env → Result Env → Result (Conf R × Env)
    with_vars (c, env) r = do env' ← r; ok (c, env')

    -- A child of the root.
    abbrev pub conf_node : ℕ → N → Conf R × Env → Result (Conf R × Env)
    conf_node k node (c, env) =
        if text_eq (name node) (bytes "policy")
        then with_policy (c, env)
            (sf_conf_policy name prop children pcre_compile (children node) c.policy)
        else if text_eq (name node) (bytes "range")
        then with_range (c, env) (sf_conf_range name prop children pcre_compile node c.range)
        else if text_eq (name node) (bytes "vars")
        then with_vars (c, env) (sf_conf_vars k node env)
        else if text_eq (name node) (bytes "headers")
        then ok (
          record c { headers = sf_conf_headers name prop children pcre_compile node c.headers },
          env,
        )
        else ok (c, env)

    unfoldable pub conf_nodes : ℕ → List N → Conf R × Env → Result (Conf R × Env)
    conf_nodes k [] x = ok x
    conf_nodes k (node ∷ nodes) x = do x' ← conf_node k node x; conf_nodes k nodes x'

    abbrev pub conf_document : ℕ → Env → Document N → Result (Option (Conf R × Env))
    conf_document k env no_document = ok none
    conf_document k env empty_document = ok none
    conf_document k env (root node) = do
      loaded ← conf_nodes k (children node) (conf_attributes node, env)
      ok (some loaded)

    -- `none` is the return of -1.
    unfoldable pub sf_conf_init : ℕ → Text → Env → Result (Option (Conf R × Env))
    sf_conf_init k conf_fn env = conf_document k env (read_file conf_fn)
