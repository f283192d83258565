-- ===== src/Main/Arguments.antt =====
-- The arguments that stand for given options.
use spiderframe.Base.{
  ℕ, ◌^◌, ◌<◌, ◌≡◌, refl, ap, ap₂, ◌∙◌, Bool, true, false, Option, none, some, List, [], ◌∷◌, ◌++◌,
  Text, bytes,
}
use spiderframe.Base.Int.{pos, atoi}
use spiderframe.Main.Options.{
  Options, config, argument_of, last_argument, parse_args, default_options,
}
use spiderframe.Main.Decimal.{show, atoi-show}

abbrev pub quiet_args : Bool → List Text
quiet_args true = bytes "-q" ∷ []
quiet_args false = []

abbrev pub proxy_args : Option Text → List Text
proxy_args none = []
proxy_args (some url) = bytes "-x" ∷ url ∷ []

-- The options in the order -q, -m, -l, -x, and the configuration file.
abbrev pub arguments : Bool → ℕ → ℕ → Option Text → Text → List Text
arguments quiet threads line proxy conf_fn =
    quiet_args quiet
    ++ bytes "-m" ∷ show threads ∷ bytes "-l" ∷ show line ∷ proxy_args proxy
    ++ conf_fn ∷ []

parse-file :
    (conf_fn : Text) (o : Options)
    → argument_of conf_fn ≡ config
    → parse_args (conf_fn ∷ []) o ≡ some (record o { conf_fn = conf_fn })
unfolding parse_args
parse-file conf_fn o h = ap (λ a. last_argument a conf_fn o) h

parse-proxy :
    (proxy : Option Text) (conf_fn : Text) (o : Options)
    → argument_of conf_fn ≡ config
    → o.proxy ≡ none
    → parse_args (proxy_args proxy ++ conf_fn ∷ []) o
      ≡ some (record o { proxy = proxy; conf_fn = conf_fn })
unfolding parse_args argument_of
parse-proxy none conf_fn o h e =
    parse-file conf_fn o h
    ∙ ap (λ (p : Option Text). some (record o { proxy = p; conf_fn = conf_fn })) e
parse-proxy (some url) conf_fn o h e = parse-file conf_fn (record o { proxy = some url }) h

parse-line :
    (n : Text) (arg : Text) (args : List Text) (o : Options)
    → parse_args (bytes "-l" ∷ n ∷ arg ∷ args) o
      ≡ parse_args (arg ∷ args) (record o { skipline = atoi n })
unfolding parse_args argument_of
parse-line n arg args o = refl

parse-threads :
    (n : Text) (arg : Text) (args : List Text) (o : Options)
    → parse_args (bytes "-m" ∷ n ∷ arg ∷ args) o
      ≡ parse_args (arg ∷ args) (record o { spider_cnt = atoi n })
unfolding parse_args argument_of
parse-threads n arg args o = refl

parse-numbers :
    (threads line : ℕ) (arg : Text) (args : List Text) (o : Options)
    → parse_args (bytes "-m" ∷ show threads ∷ bytes "-l" ∷ show line ∷ arg ∷ args) o
      ≡ parse_args (arg ∷ args) (record o { spider_cnt = pos threads; skipline = pos line })
parse-numbers threads line arg args o =
    parse-threads (show threads) (bytes "-l") (show line ∷ arg ∷ args) o
    ∙ parse-line (show line) arg args (record o { spider_cnt = atoi (show threads) })
    ∙ ap₂ (λ n m. parse_args (arg ∷ args) (record o { spider_cnt = n; skipline = m }))
        (atoi-show threads) (atoi-show line)

parse-rest :
    (threads line : ℕ) (proxy : Option Text) (conf_fn : Text) (o : Options)
    → argument_of conf_fn ≡ config
    → o.proxy ≡ none
    → parse_args
        (bytes "-m" ∷ show threads ∷ bytes "-l" ∷ show line ∷ proxy_args proxy ++ conf_fn ∷ [])
        o
      ≡ some (record o {
        spider_cnt = pos threads;
        skipline = pos line;
        proxy = proxy;
        conf_fn = conf_fn;
      })
parse-rest threads line none conf_fn o h e =
    parse-numbers threads line conf_fn [] o
    ∙ parse-proxy none conf_fn (record o { spider_cnt = pos threads; skipline = pos line }) h e
parse-rest threads line (some url) conf_fn o h e =
    parse-numbers threads line (bytes "-x") (url ∷ conf_fn ∷ []) o
    ∙ parse-proxy (some url) conf_fn (record o { spider_cnt = pos threads; skipline = pos line }) h
        e

parse-quiet :
    (arg n m : Text) (args : List Text) (o : Options)
    → parse_args (bytes "-q" ∷ arg ∷ n ∷ m ∷ args) o
      ≡ parse_args (arg ∷ n ∷ m ∷ args) (record o { quiet = true })
unfolding parse_args argument_of
parse-quiet arg n m args o = refl

-- For numbers that `int` holds and a configuration file that no option is spelled like, the loop of
-- main over the arguments -q (or not), -m and -l with those numbers in decimal, -x with a proxy (or
-- not) and the file, from the defaults, gives back these options.
pub parse_args-arguments :
    (quiet : Bool) (threads line : ℕ) (proxy : Option Text) (conf_fn : Text)
    → threads < 2 ^ 31
    → line < 2 ^ 31
    → argument_of conf_fn ≡ config
    → parse_args (arguments quiet threads line proxy conf_fn) default_options
      ≡ some (record {
        quiet = quiet;
        spider_cnt = pos threads;
        skipline = pos line;
        proxy = proxy;
        conf_fn = conf_fn;
      })
parse_args-arguments true threads line proxy conf_fn lt lt2 h =
    parse-quiet (bytes "-m") (show threads) (bytes "-l")
      (show line ∷ proxy_args proxy ++ conf_fn ∷ []) default_options
    ∙ parse-rest threads line proxy conf_fn (record default_options { quiet = true }) h refl
parse_args-arguments false threads line proxy conf_fn lt lt2 h =
    parse-rest threads line proxy conf_fn default_options h refl
