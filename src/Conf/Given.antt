-- ===== src/Conf/Given.antt =====
-- What the children of a node give the variables.
use spiderframe.Base.{
  ◌≡◌, refl, ap, ◌∙◌, sym, Bool, true, false, Option, none, some, List, [], ◌∷◌, Text, bytes,
  text_eq, if◌then◌else◌, Bool-cases, inl, inr,
}
use spiderframe.Var.{sf_var_create}
use spiderframe.Perform.Record.{Env}
use spiderframe.Conf.Document.{Document, set_var, var_nodes}

-- What a node gives a variable: a node `var` with a name and a value gives its value, as the table
-- of variables stores it, to the variable of that name.
abbrev pub given : Option Text → Option Text → Text → Option Text
given (some varn) (some varv) n =
    if text_eq varn n then some (sf_var_create varn (some varv)).value else none
given (some varn) none n = none
given none varv n = none

abbrev pub or_else : Option Text → Option Text → Option Text
or_else (some v) w = some v
or_else none w = w

or_else_assoc : (u v w : Option Text) → or_else (or_else u v) w ≡ or_else u (or_else v w)
or_else_assoc (some a) v w = refl
or_else_assoc none v w = refl

module _ {N : Type 0} (name : N → Text) (prop : N → Text → Option Text) where
  abbrev pub given_by : N → Text → Option Text
  given_by node n =
      if text_eq (name node) (bytes "var")
      then given (prop node (bytes "name")) (prop node (bytes "value")) n
      else none

  -- What the last of the nodes that give the variable a value gives it.
  unfoldable pub last_given : List N → Text → Option Text
  last_given [] n = none
  last_given (node ∷ nodes) n = or_else (last_given nodes n) (given_by node n)

module _ {N : Type 0} (name : N → Text) (prop : N → Text → Option Text) (children : N → List N)
    (read_file : Text → Document N) where
  set_var-given :
      (varn varv : Option Text) (env : Env) (n : Text)
      → set_var name prop children read_file varn varv env n ≡ or_else (given varn varv n) (env n)
  set_var-given none varv env n = refl
  set_var-given (some varn) none env n = refl
  set_var-given (some varn) (some varv) env n = elim (Bool-cases (text_eq varn n)) [
    | inl e ↦ rw e refl
    | inr e ↦ rw e refl
  ]

  node-given :
      (node : N) (env : Env) (n : Text) (b : Bool)
      → (if b
            then set_var name prop children read_file
                (prop node (bytes "name"))
                (prop node (bytes "value"))
                env
            else env)
          n
        ≡ or_else
            (if b then given (prop node (bytes "name")) (prop node (bytes "value")) n else none)
            (env n)
  node-given node env n true =
      set_var-given (prop node (bytes "name")) (prop node (bytes "value")) env n
  node-given node env n false = refl

  pub var_nodes-last_given :
      (nodes : List N) (env : Env) (n : Text)
      → var_nodes name prop children read_file nodes env n
        ≡ or_else (last_given name prop nodes n) (env n)
  unfolding var_nodes last_given
  var_nodes-last_given [] env n = refl
  var_nodes-last_given (node ∷ nodes) env n =
      var_nodes-last_given nodes _ n
      ∙ ap (or_else (last_given name prop nodes n))
          (node-given node env n (text_eq (name node) (bytes "var")))
      ∙ sym (or_else_assoc (last_given name prop nodes n) (given_by name prop node n) (env n))
