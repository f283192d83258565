-- ===== src/Main/Start.antt =====
-- What happens before the loop: `sf_global_init` and `sf_spider_create` of main.c, and
-- `sf_spider_init` of sf_proc.c. The lines of the file that are not yet read are what `sf_global_init`
-- leaves of them. The pools, the file names and the thread itself are left out.
use spiderframe.Base.{
  ℕ, zero, suc, ◌+◌, ◌≤◌, ◌≡◌, refl, ap, ◌∙◌, arith, Bool, true, false, Option, none, some, List,
  [], ◌∷◌, Text, length, drop, replicate,
}
use spiderframe.Base.Int.{ℤ, pos}
use spiderframe.Base.Result.{Result, ok, exited, ◌>>=◌}
use spiderframe.Perform.Record.{Env, bind_name}
use spiderframe.Conf.{Conf}
use spiderframe.Conf.Document.{Document, sf_conf_init}
use spiderframe.Main.Crawl.{Scanned, both, Crawl}

-- `for (i = 0; i < skipline; i++) fscanf(...)`
unfoldable pub skip_lines : {S : Type 0} → (S → Scanned × S) → ℕ → S → S
skip_lines fscanf zero s = s
skip_lines fscanf (suc n) s = skip_lines fscanf n (fscanf s).1

-- The state before the first spider, for `spider_cnt` spiders, whose memory is zeroed.
unfoldable pub sf_global_init :
    {S : Type 0} → (S → Scanned × S) → (skipline spider_cnt : ℕ) → S → Crawl S
sf_global_init fscanf skipline spider_cnt s = record {
  line = pos skipline;
  eof = replicate spider_cnt false;
  rest = skip_lines fscanf skipline s;
}

-- `isdone` before and after, and the variables: a NULL handle for every spider but the first.
unfoldable pub sf_proc_init_varhandle : ℕ → ℕ × Option Env
sf_proc_init_varhandle zero = (1, some (bind_name (λ name. none) [] (some [])))
sf_proc_init_varhandle (suc n) = (suc (suc n), none)

-- An insertion at a NULL handle makes a table.
abbrev pub variables : Option Env → Env
variables none = λ name. none
variables (some env) = env

module _ {N R : Type 0} (name : N → Text) (prop : N → Text → Option Text) (children : N → List N)
    (read_file : Text → Document N) (pcre_compile : Text → Option R) where
  abbrev pub conf_or_null : ℕ × Option Env → Option (Conf R × Env) → ℕ × Option (Conf R × Env)
  conf_or_null (isdone, env) loaded = (isdone, loaded)

  -- `none` is NULL.
  unfoldable pub sf_spider_init :
      ℕ → (allocated : Bool) → (isdone : ℕ) → Text → Result (ℕ × Option (Conf R × Env))
  sf_spider_init fuel false isdone conf_fn = ok (isdone, none)
  sf_spider_init fuel true isdone conf_fn = do
    let made = sf_proc_init_varhandle isdone
    loaded ← sf_conf_init name prop children read_file pcre_compile fuel conf_fn (variables made.1)
    ok (conf_or_null made loaded)

  abbrev pub or_exit : ℕ × Option (Conf R × Env) → Result (ℕ × (Conf R × Env))
  or_exit (isdone, none) = exited
  or_exit (isdone, some s) = ok (isdone, s)

  unfoldable pub sf_spider_create :
      ℕ → (allocated : Bool) → (isdone : ℕ) → Text → Result (ℕ × (Conf R × Env))
  sf_spider_create fuel allocated isdone conf_fn = do
    s ← sf_spider_init fuel allocated isdone conf_fn
    or_exit s

-- What fscanf does on a file of well-formed lines, of which `unread` are left.
pub record Reads {S : Type 0} (fscanf : S → Scanned × S) (unread : S → List (ℤ × Text))
    : Type 0 where
  pub at_line :
      (s : S) (level : ℤ) (url : Text) (lines : List (ℤ × Text))
      → unread s ≡ (level, url) ∷ lines
      → ((fscanf s).0 ≡ both level url) × (unread (fscanf s).1 ≡ lines)

pub drop-cons :
    (n : ℕ) (xs : List (ℤ × Text))
    → suc n ≤ length xs
    → (x : ℤ × Text) × (drop n xs ≡ x ∷ drop (suc n) xs)
drop-cons zero [] le = absurd (omega arith)
drop-cons zero (x ∷ xs) le = (x, refl)
drop-cons (suc n) [] le = absurd (omega arith)
drop-cons (suc n) (x ∷ xs) le = drop-cons n xs (omega arith)

module _ {S : Type 0} (fscanf : S → Scanned × S) (unread : S → List (ℤ × Text))
    (reads : Reads fscanf unread) where
  pub skip_lines-drop :
      (n from : ℕ) (lines : List (ℤ × Text)) (s : S)
      → from + n ≤ length lines
      → unread s ≡ drop from lines
      → unread (skip_lines fscanf n s) ≡ drop (from + n) lines
  unfolding skip_lines
  skip_lines-drop zero from lines s le h = h ∙ ap (λ k. drop k lines) (plus_zero from)
    where
      plus_zero : (k : ℕ) → k ≡ k + 0
      plus_zero k = omega arith
  skip_lines-drop (suc n) from lines s le h =
      let (x, e) = drop-cons from lines (omega arith) in
      let (item, after) = reads.at_line s x.0 x.1 (drop (suc from) lines) (h ∙ e) in
      skip_lines-drop n (suc from) lines (fscanf s).1 (omega arith) after
      ∙ ap (λ k. drop k lines) (plus_suc from n)
    where
      plus_suc : (a b : ℕ) → suc a + b ≡ a + suc b
      plus_suc a b = omega arith
