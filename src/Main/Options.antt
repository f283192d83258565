-- ===== src/Main/Options.antt =====
-- `main` of main.c: the arguments of the program.
use spiderframe.Base.{
  Bool, true, false, Option, none, some, List, [], ◌∷◌, Text, bytes, text_eq, if◌then◌else◌,
}
use spiderframe.Base.Int.{ℤ, pos, atoi}

-- `log_lvl_cfg` is LOG_INFO, `spider_cnt`, `skipline`, `proxy` and `conf_fn`
pub record Options : Type 0 where
  pub quiet : Bool
  pub spider_cnt : ℤ
  pub skipline : ℤ
  pub proxy : Option Text
  pub conf_fn : Text

-- What an argument is taken for.
pub data Argument : Type 0 where
  quiet help threads lines via config : Argument

unfoldable pub argument_of : Text → Argument
argument_of a =
    if text_eq a (bytes "-q")
    then quiet
    else if text_eq a (bytes "-h")
    then help
    else if text_eq a (bytes "-m")
    then threads
    else if text_eq a (bytes "-l")
    then lines
    else if text_eq a (bytes "-x")
    then via
    else config

-- What is parsed behind an argument and the `one`, `two` or `three` places it takes.
abbrev pub Rest : Type 0
Rest = Options → Option Options

abbrev pub last_argument : Argument → Text → Options → Option Options
last_argument quiet a o = some (record o { quiet = true })
last_argument help a o = none
last_argument threads a o = some o
last_argument lines a o = some o
last_argument via a o = some o
last_argument config a o = some (record o { conf_fn = a })

-- An argument with one behind it.
abbrev pub with_one : Argument → (a n : Text) → (one two : Rest) → Rest → Options → Option Options
with_one quiet a n one two configured o = one (record o { quiet = true })
with_one help a n one two configured o = none
with_one threads a n one two configured o = two (record o { spider_cnt = atoi n })
with_one lines a n one two configured o = two (record o { skipline = atoi n })
with_one via a n one two configured o = two (record o { proxy = some n })
with_one config a n one two configured o = configured (record o { conf_fn = a; skipline = atoi n })

-- The loop over the arguments; `none` after -h, where `main` returns.
unfoldable pub parse_args : List Text → Options → Option Options
parse_args [] o = some o
parse_args (a ∷ []) o = last_argument (argument_of a) a o
parse_args (a ∷ n ∷ []) o =
    with_one (argument_of a) a n (parse_args (n ∷ [])) (parse_args []) (parse_args []) o
parse_args (a ∷ n ∷ m ∷ args) o =
    with_one (argument_of a) a n (parse_args (n ∷ m ∷ args)) (parse_args (m ∷ args))
      (λ o. parse_args args (record o { spider_cnt = atoi m })) o

-- Before the loop.
abbrev pub default_options : Options
default_options = record {
  quiet = false;
  spider_cnt = pos 1;
  skipline = pos 0;
  proxy = none;
  conf_fn = bytes "sf_conf.xml";
}
