-- ===== src/Tests/Documents.antt =====
-- A small configuration, and a list that is appended to.
use spiderframe.Base.{
  ◌≡◌, refl, subst, Bool, true, false, Option, none, some, List, [], ◌∷◌, Text, bytes, text_eq,
  arith, ◌==◌, if◌then◌else◌,
}
use spiderframe.Base.Result.{Result, ok, undefined, out_of_fuel, exited}
use spiderframe.Link.{Links}
use spiderframe.Link.Append.{Returns}
use spiderframe.Link.Cycle.{SameOutside}
use spiderframe.Perform.Record.{Env}
use spiderframe.Conf.{Conf, policy_nodes, sf_conf_policy, sf_conf_range}
use spiderframe.Conf.Tail.{sf_conf_insert_tail, Listed, insert_tail-Listed}
use spiderframe.Conf.Document.{
  Document, no_document, root, var_nodes, sf_conf_vars, conf_attributes, conf_nodes,
}
use spiderframe.Conf.Include.{Declares, Below, sf_conf_vars-Declares, sf_conf_vars_hang}
use spiderframe.Conf.Nodes.{Added, policies_of, ranges_of, headers_of, vars_of}
use spiderframe.Conf.Added.{conf_nodes-Added}

data Element : Type 0 where
  conf vars var policy range : Element

abbrev name_of : Element → Text
name_of conf = bytes "conf"
name_of vars = bytes "vars"
name_of var = bytes "var"
name_of policy = bytes "policy"
name_of range = bytes "range"

-- The file "v" of variables is included.
abbrev prop_of : Element → Text → Option Text
prop_of vars a = if text_eq a (bytes "include") then some (bytes "v") else none
prop_of var a =
    if text_eq a (bytes "name")
    then some (bytes "x")
    else if text_eq a (bytes "value")
    then some (bytes "1")
    else none
prop_of conf a = none
prop_of policy a = none
prop_of range a = none

abbrev children_of : Element → List Element
children_of conf = policy ∷ vars ∷ range ∷ policy ∷ []
children_of vars = var ∷ []
children_of var = []
children_of policy = []
children_of range = []

abbrev included : Text → Document Element
included fn = if text_eq fn (bytes "v") then root var else no_document

abbrev compile_none : Text → Option (Unit {0})
compile_none pattern = none

abbrev no_vars : Env
no_vars name = none

root_inj : (a b : Element) → root a ≡ root b → a ≡ b
root_inj a b h = cc

-- The node `var` of the file names no other file.
no_rank :
    (fn : Text) (node : Element)
    → included fn ≡ root node
    → Below name_of prop_of children_of included (λ fn. 0) 0 (prop_of node (bytes "include"))
no_rank fn node h = by_file (text_eq fn (bytes "v")) h
  where
    by_file :
        (b : Bool)
        → (if b then root var else no_document) ≡ root node
        → Below name_of prop_of children_of included (λ fn. 0) 0 (prop_of node (bytes "include"))
    by_file true h =
        subst
          (λ n.
            Below name_of prop_of children_of included (λ fn. 0) 0 (prop_of n (bytes "include")))
          (root_inj var node h) tt
    by_file false h = ground arith

sf_conf_vars-Declares_example :
    (env' : Env) × (sf_conf_vars name_of prop_of children_of included 2 vars no_vars ≡ ok env')
    × Declares name_of prop_of children_of included vars no_vars env'
sf_conf_vars-Declares_example =
    sf_conf_vars-Declares name_of prop_of children_of included (λ fn. 0) no_rank 2 vars no_vars
      (omega arith)

-- A file that includes itself.
abbrev circular : Text → Document Element
circular fn = root vars

abbrev IsV : Text → Type 0
IsV fn = Unit {0}

again :
    (fn : Text)
    → IsV fn
    → (node : Element) × (g : Text) × (circular fn ≡ root node)
      × (prop_of node (bytes "include") ≡ some g)
      × IsV g
again fn c = (vars, bytes "v", refl, refl, tt)

sf_conf_vars_hang_example :
    sf_conf_vars name_of prop_of children_of circular 9 vars no_vars ≡ out_of_fuel
sf_conf_vars_hang_example =
    sf_conf_vars_hang name_of prop_of children_of circular IsV again 9 vars no_vars (bytes "v") refl
      tt

abbrev empty_conf : Conf (Unit {0})
empty_conf = conf_attributes name_of prop_of children_of included compile_none conf

abbrev env_of : Result (Conf (Unit {0}) × Env) → Conf (Unit {0}) × Env
env_of (ok x) = x
env_of undefined = (empty_conf, no_vars)
env_of out_of_fuel = (empty_conf, no_vars)
env_of exited = (empty_conf, no_vars)

abbrev loaded : Result (Conf (Unit {0}) × Env)
loaded =
    conf_nodes name_of prop_of children_of included compile_none 2 (children_of conf)
      (empty_conf, no_vars)

loads : loaded ≡ ok (env_of loaded)
unfolding conf_nodes sf_conf_policy policy_nodes sf_conf_vars var_nodes sf_conf_range
loads = refl

conf_nodes-Added_example :
    Added name_of prop_of children_of compile_none included
      (policies_of name_of prop_of children_of compile_none included (children_of conf))
      (ranges_of name_of prop_of children_of compile_none included (children_of conf))
      (headers_of name_of prop_of children_of compile_none included (children_of conf))
      (vars_of name_of prop_of children_of compile_none included 2 (children_of conf))
      (empty_conf, no_vars)
      (env_of loaded)
conf_nodes-Added_example =
    conf_nodes-Added name_of prop_of children_of compile_none included 2 (children_of conf)
      (empty_conf, no_vars) (env_of loaded) loads

abbrev links : Links
links = record { next = λ a. if a == 1 then 2 else 0; prev = λ a. 0 }

two-Listed : Listed links 1 (1 ∷ 2 ∷ [])
two-Listed = record { head = refl; ended = (refl, refl); once = λ a. ground arith; present = refl }

insert_tail-Listed_example :
    Returns
      (λ root' g. Listed g root' (1 ∷ 2 ∷ 3 ∷ []) × SameOutside (3 ∷ 1 ∷ 2 ∷ []) links g)
      (sf_conf_insert_tail 2 3 1 links)
insert_tail-Listed_example =
    insert_tail-Listed 2 1 3 (1 ∷ 2 ∷ []) two-Listed (ground arith) refl (omega arith)
