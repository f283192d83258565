-- ===== src/Curl.antt =====
-- sf_curl.c: the download of one URL. libcurl is a parameter: which options it accepts after which,
-- and which attempts succeed. What it receives goes through the two writers.
pub mod Writer
pub mod Format
pub mod Fetch
use spiderframe.Base.{
  ℕ, zero, suc, ◌+◌, ◌-◌, ◌*◌, Bool, true, false, Option, none, some, List, [], ◌∷◌, ◌++◌, map,
  tail, Text, length, ltb, take, ◌==◌, if◌then◌else◌,
}
use spiderframe.Template.{Outcome, done, overflow, out_of_fuel}

abbrev pub max_html_size : ℕ
max_html_size = 5 * 1024 * 1024

abbrev pub max_hdr_size : ℕ
max_hdr_size = 512 * 1024

-- A buffer that a writer fills: the length that it keeps in its first eight bytes, and what has been
-- received behind them.
pub record Received : Type 0 where
  pub len : ℕ
  pub text : Text

-- Nothing is taken, or all is, and a NUL is written at an offset in the buffer.
pub data Write : Type 0 where
  refused : Write
  taken : Received → (nul : ℕ) → Write

abbrev pub writer : ℕ → Received → Text → Write
writer max_size buf s =
    if ltb (max_size - 4 - 1) (buf.len + length s)
    then refused
    else taken (record { len = buf.len + length s; text = take buf.len buf.text ++ s })
        (8 + (buf.len + length s) + 1)

unfoldable pub writer_hdr : Received → Text → Write
writer_hdr = writer max_hdr_size

unfoldable pub writer_html : Received → Text → Write
writer_html = writer max_html_size

pub data Opt : Type 0 where
  post error_buffer no_signal low_speed_limit low_speed_time encoding header_data header_function :
      Opt
  follow_location max_redirs write_function write_data timeout connect_timeout cookie_file : Opt
  post_fields user_agent url proxy : Text → Opt
  http_header : List Text → Opt

-- A call of `curl_easy_setopt`, by what happens if it fails: nothing, the connection is closed, or
-- the list of headers is freed and the connection is closed. `slist` makes the list.
pub data Step : Type 0 where
  may must must_free : Opt → Step
  slist : Step

-- The part of the configuration that is read, and the global `proxy`.
pub record Request : Type 0 where
  pub is_post : Bool
  pub post_data : Text
  pub agent : Text
  pub headers : List Text
  pub proxy : Option Text

abbrev pub next_do : {A B : Type 0} → Outcome A → (A → Outcome B) → Outcome B
next_do (done a) k = k a
next_do overflow k = overflow
next_do out_of_fuel k = out_of_fuel

-- The loop over the circle of headers begins behind its root, which comes last.
abbrev pub rotate : List Text → List Text
rotate [] = []
rotate (h ∷ hs) = hs ++ h ∷ []

module _ (exp : Text → Outcome Text) where
  unfoldable pub exp_all : List Text → Outcome (List Text)
  exp_all [] = done []
  exp_all (h ∷ hs) = next_do (exp h) (λ t. next_do (exp_all hs) (λ ts. done (t ∷ ts)))

  abbrev pub post_steps : Request → Outcome (List Step)
  post_steps r =
      if r.is_post
      then next_do (exp r.post_data) (λ field. done (must post ∷ may (post_fields field) ∷ []))
      else done []

  abbrev pub header_steps : List Text → Outcome (List Step)
  header_steps [] = done []
  header_steps (h ∷ hs) =
      next_do (exp_all (rotate (h ∷ hs))) (λ ts. done (slist ∷ may (http_header ts) ∷ []))

  abbrev pub proxy_steps : Option Text → List Step
  proxy_steps none = []
  proxy_steps (some p) = must (proxy p) ∷ []

  -- All calls in order.
  unfoldable pub setup_steps : Request → Text → Outcome (List Step)
  unfolding exp_all
  setup_steps r u = next_do (post_steps r) (λ posting. next_do (exp r.agent) (λ agent.
      next_do (header_steps r.headers) (λ heading. done (
        posting
        ++ (must (user_agent agent)
              ∷ must error_buffer
              ∷ must (url u)
              ∷ must no_signal
              ∷ must low_speed_limit
              ∷ must low_speed_time
              ∷ must encoding
              ∷ must header_data
              ∷ must header_function
              ∷ must follow_location
              ∷ must max_redirs
              ∷ must write_function
              ∷ must write_data
              ∷ heading
            ++ (must_free timeout
                ∷ must_free connect_timeout
                ∷ must_free cookie_file
                ∷ proxy_steps r.proxy))))))

-- The connection: what was set, whether the list of headers is allocated, whether it is open.
pub record Conn : Type 0 where
  pub options : List Opt
  pub listed : Bool
  pub connected : Bool

abbrev pub cleanup : Conn → Conn
cleanup c = record c { connected = false }

abbrev pub free_all : Conn → Conn
free_all c = record c { listed = false }

abbrev pub remember : Conn → Opt → Conn
remember c o = record c { options = c.options ++ o ∷ [] }

module _ (accepts : List Opt → Opt → Bool) where
  -- `false` is a failure that returns NULL.
  unfoldable pub run_steps : List Step → Conn → Bool × Conn
  run_steps [] c = (true, c)
  run_steps (may o ∷ steps) c = run_steps steps (if accepts c.options o then remember c o else c)
  run_steps (must o ∷ steps) c =
      let rest = run_steps steps (remember c o) in
      if accepts c.options o then rest else (false, cleanup c)
  run_steps (must_free o ∷ steps) c =
      let rest = run_steps steps (remember c o) in
      if accepts c.options o then rest else (false, cleanup (free_all c))
  run_steps (slist ∷ steps) c = run_steps steps (record c { listed = true })

-- `do { if (perform succeeds) break; } while (--retry);` and what is left of `retry`.
unfoldable pub attempts : (ℕ → Bool) → (retry nth : ℕ) → ℕ
attempts performs zero nth = zero
attempts performs (suc retry) nth =
    let rest = attempts performs retry (suc nth) in if performs nth then suc retry else rest

-- Whether the buffer is returned, the connection after the call, and the lines for the file of
-- failures.
pub record Fetched : Type 0 where
  pub success : Bool
  pub conn : Conn
  pub failures : List Text

-- `fprintf(fail_fp, url)`: the URL is the format. `%%` prints one `%`. Any other conversion reads an
-- argument that is not there, or is none: `overflow` is here what C leaves undefined.
abbrev pub print_byte : ℕ → Outcome Text → Outcome Text
print_byte c (done t) = done (c ∷ t)
print_byte c overflow = overflow
print_byte c out_of_fuel = out_of_fuel

unfoldable pub print_format : Text → Outcome Text
print_format [] = done []
print_format (c ∷ []) = if c == b'%' then overflow else done (c ∷ [])
print_format (c ∷ d ∷ format) =
    let rest = print_format (d ∷ format) in
    let behind = print_format format in
    if c == b'%'
    then (if d == b'%' then print_byte b'%' behind else overflow)
    else print_byte c rest

abbrev pub performed : Text → Conn → ℕ → Outcome Fetched
performed u c zero =
    next_do (print_format u)
      (λ line. done (record { success = false; conn = cleanup (free_all c); failures = line ∷ [] }))
performed u c (suc retry) =
    done (record { success = true; conn = cleanup (free_all c); failures = [] })

abbrev pub after_setup : (ℕ → Bool) → Text → Bool × Conn → Outcome Fetched
after_setup performs u (false, c) = done (record { success = false; conn = c; failures = [] })
after_setup performs u (true, c) = performed u c (attempts performs 3 0)

abbrev pub fresh_conn : Conn
fresh_conn = record { options = []; listed = false; connected = true }

-- `created` is whether `curl_easy_init` returns a connection; `none` is its failure.
unfoldable pub sf_curl_url :
    (Text → Outcome Text)
    → (List Opt → Opt → Bool)
    → (ℕ → Bool)
    → (created : Bool) → Request
    → Text
    → Outcome (Option Fetched)
unfolding setup_steps run_steps
sf_curl_url exp accepts performs created r u =
    if created
    then next_do (setup_steps exp r u) (λ steps.
      next_do (after_setup performs u (run_steps accepts steps fresh_conn)) (λ f. done (some f)))
    else done none
