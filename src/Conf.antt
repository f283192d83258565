-- ===== src/Conf.antt =====
-- sf_conf.c: the configuration of a spider, from its XML file. libxml is a parameter: a node has a
-- name, attributes, and children that `next` links in their order; reading a file gives no document,
-- a document without a root, or the root. pcre_compile is a parameter too.
pub mod Tail
pub mod Nodes
pub mod Added
pub mod Given
pub mod Include
pub mod Document
use spiderframe.Base.{
  ℕ, zero, suc, ◌%◌, Bool, true, false, ◌||◌, Option, none, some, List, [], ◌∷◌, ◌++◌, Text, bytes,
  text_eq, ◌==◌, if◌then◌else◌,
}
use spiderframe.Base.Int.{ℤ, pos, negsuc, atoi}
use spiderframe.Base.Result.{Result, ok, undefined, out_of_fuel, exited, ◌>>=◌, ◌>>◌}
use spiderframe.Var.{sf_var_create}
use spiderframe.Proc.{Range}
use spiderframe.Policy.{Newspider, Trigger, Capture, Pcre, Policy}
use spiderframe.Perform.Record.{Env, bind_name, required}

-- `sf_conf_t`
pub record Conf (R : Type 0) : Type 0 where
  pub url_level : ℤ
  pub url_count : ℤ
  pub interval : ℤ
  pub url_feedback : ℤ
  pub method : Text
  pub post_data : Text
  pub user_agent : Text
  pub url_suffix : Option Text
  pub policy : List (Policy R)
  pub range : List (Range R)
  pub headers : List Text

-- `sf_load_attr_int_default` and `sf_load_attr_string_default`
abbrev pub int_or : Option Text → ℤ → ℤ
int_or none default = default
int_or (some s) default = atoi s

abbrev pub string_or : Option Text → Text → Text
string_or none default = default
string_or (some s) default = s

-- A number in a signed field of one bit: the lowest bit is kept.
unfoldable pub bit_field : ℤ → Bool
bit_field (pos n) = n % 2 == 1
bit_field (negsuc n) = n % 2 == 0

module _ {N R : Type 0} (name : N → Text) (prop : N → Text → Option Text) (children : N → List N)
    (pcre_compile : Text → Option R) where
  abbrev pub is_node : N → Text → Bool
  is_node node s = text_eq (name node) s

  abbrev pub load_cap : N → Capture
  load_cap node = record {
    capstr = prop node (bytes "capstr");
    out_pattern = prop node (bytes "out_pattern");
    json_out = prop node (bytes "json_out");
    store_as = prop node (bytes "store_as");
    content_as = prop node (bytes "content_as");
  }

  unfoldable pub sf_conf_cap : List N → List Capture
  sf_conf_cap [] = []
  sf_conf_cap (node ∷ nodes) =
      let rest = sf_conf_cap nodes in
      if is_node node (bytes "cap") then load_cap node ∷ rest else rest

  abbrev pub load_newspider : N → Newspider
  load_newspider node = record {
    conf_fn = prop node (bytes "config_file");
    url_exp = prop node (bytes "url");
    fin_fn = prop node (bytes "input_file");
  }

  unfoldable pub sf_conf_newspider : List N → List Newspider
  sf_conf_newspider [] = []
  sf_conf_newspider (node ∷ nodes) =
      let rest = sf_conf_newspider nodes in
      if is_node node (bytes "new_spider") then load_newspider node ∷ rest else rest

  abbrev pub load_trigger : N → Trigger
  load_trigger node = record {
    program = prop node (bytes "program");
    args = prop node (bytes "args");
    store_as = prop node (bytes "store_as");
  }

  unfoldable pub sf_conf_trigger : List N → List Trigger
  sf_conf_trigger [] = []
  sf_conf_trigger (node ∷ nodes) =
      let rest = sf_conf_trigger nodes in
      if is_node node (bytes "trigger") then load_trigger node ∷ rest else rest

  -- `sf_pcre_compile`: a pattern that does not compile ends the process.
  abbrev pub compiled : Option R → Result R
  compiled none = exited
  compiled (some re) = ok re

  abbrev pub sf_pcre_compile : Text → Result R
  sf_pcre_compile pattern = compiled (pcre_compile pattern)

  -- What `sf_conf_pcre` puts behind the patterns of a policy.
  unfoldable pub sf_conf_pcre : N → Result (Pcre R)
  sf_conf_pcre node = do
    regex ← required (prop node (bytes "regex"))
    re ← sf_pcre_compile regex
    ok (record {
      urlmatch = bit_field (int_or (prop node (bytes "urlmatch")) (pos 0));
      hdrmatch = bit_field (int_or (prop node (bytes "hdrmatch")) (pos 0));
      movetoend = bit_field (int_or (prop node (bytes "movetoend")) (pos 1));
      repeat = int_or (prop node (bytes "repeat")) (pos 1);
      re = some re;
      uniq = prop node (bytes "uniq");
      json_new = prop node (bytes "json_new");
      sfcap = sf_conf_cap (children node);
      ns = sf_conf_newspider (children node);
      trigger = sf_conf_trigger (children node);
    })

  abbrev pub compile_if : Option Text → Result (Option R)
  compile_if none = ok none
  compile_if (some pattern) = do re ← sf_pcre_compile pattern; ok (some re)

  unfoldable pub sf_conf_policy_range : N → Result (Range R)
  sf_conf_policy_range node = do
    url_white ← required (prop node (bytes "url_white"))
    url_white_re ← sf_pcre_compile url_white
    url_black_re ← compile_if (prop node (bytes "url_black"))
    ok (record {
      url_white_re = some url_white_re;
      url_black_re = url_black_re;
      url_rewrite = none;
    })

  abbrev pub policy_node : N → Policy R → Result (Policy R)
  policy_node node p =
      if is_node node (bytes "pcre")
      then (do pcre ← sf_conf_pcre node; ok (record p { pcre_root = p.pcre_root ++ pcre ∷ [] }))
      else if is_node node (bytes "policy_range")
      then (do
        range ← sf_conf_policy_range node
        ok (record p { policy_range = p.policy_range ++ range ∷ [] }))
      else ok p

  unfoldable pub policy_nodes : List N → Policy R → Result (Policy R)
  policy_nodes [] p = ok p
  policy_nodes (node ∷ nodes) p = do p' ← policy_node node p; policy_nodes nodes p'

  abbrev pub new_policy : List N → Result (Policy R)
  new_policy nodes = policy_nodes nodes (record { pcre_root = []; policy_range = [] })

  -- The new policy stands before the others.
  unfoldable pub sf_conf_policy : List N → List (Policy R) → Result (List (Policy R))
  sf_conf_policy nodes ps = do p ← new_policy nodes; ok (p ∷ ps)

  abbrev pub new_range : N → Result (Range R)
  new_range node = do
    url_white_re ← compile_if (prop node (bytes "url_white"))
    url_black_re ← compile_if (prop node (bytes "url_black"))
    ok (record {
      url_white_re = url_white_re;
      url_black_re = url_black_re;
      url_rewrite = prop node (bytes "url_rewrite");
    })

  unfoldable pub sf_conf_range : N → List (Range R) → Result (List (Range R))
  sf_conf_range node rs = do range ← new_range node; ok (rs ++ range ∷ [])

  abbrev pub append_value : Option Text → List Text → List Text
  append_value none headers = headers
  append_value (some hdrv) headers = headers ++ hdrv ∷ []

  unfoldable pub header_nodes : List N → List Text → List Text
  header_nodes [] headers = headers
  header_nodes (node ∷ nodes) headers = header_nodes nodes (
      if is_node node (bytes "header")
      then append_value (prop node (bytes "value")) headers
      else headers)

  abbrev pub sf_conf_headers : N → List Text → List Text
  sf_conf_headers node headers = header_nodes (children node) headers
