-- ===== src/Json.antt =====
-- sf_json.c: the buffer into which libjson prints, and the fields of a pattern as JSON events.
-- libjson's printer is a parameter: `print` is json_print_raw, on the printer's state.
pub mod Buffer
pub mod Fields
pub mod Nested
use spiderframe.Base.{
  ℕ, suc, ◌+◌, Bool, true, Option, none, some, List, [], ◌∷◌, ◌++◌, Text, length, ltb,
  if◌then◌else◌, tail, set, take, drop,
}
use spiderframe.Template.{
  Outcome, done, overflow, out_of_fuel, Part, literal, place, unclosed, scan,
}

abbrev pub json_max_buf_len : ℕ
json_max_buf_len = 131080

-- `json_buf`: the size of its array, the length that it keeps in its first eight bytes, and the
-- bytes behind them that have been printed.
pub record PrintBuf : Type 0 where
  pub len : ℕ
  pub text : Text

-- What a call of the callback does: -1 and nothing, or 0 and a longer buffer. `last` is the offset
-- in `json_buf` of the NUL that it writes behind the text.
pub data Printed : Type 0 where
  refused : Printed
  printed : PrintBuf → (last : ℕ) → Printed

-- `BUF_LEN(buf) + length > JSON_MAX_BUF_LEN`, the copy, the new length, and the NUL at the tail.
unfoldable pub sf_json_print_buf_callback : PrintBuf → Text → Printed
sf_json_print_buf_callback buf s =
    if ltb json_max_buf_len (buf.len + length s)
    then refused
    else printed (record { len = buf.len + length s; text = take buf.len buf.text ++ s })
        (8 + (buf.len + length s))

-- `BUF_CLEAR(json_buf)`
unfoldable pub sf_json_free_print_buf : PrintBuf → PrintBuf
sf_json_free_print_buf buf = record { len = 0; text = [] }

pub data Event : Type 0 where
  object_begin object_end array_begin array_end : Event
  key : Text → Event
  string : Text → Event

module _ {P : Type 0} (print : Event → P → P) where
  abbrev pub print_var : Text → Option Text → P → P
  print_var name none p = p
  print_var name (some value) p = print (string value) (print (key (tail name)) p)

  -- The copy of the loop here writes nothing for a byte, an unknown name or an open parenthesis.
  unfoldable pub json_visit : (Text → Option Text) → Part → P → Option P
  json_visit vars (literal c) p = some p
  json_visit vars (place name) p = some (print_var name (vars name) p)
  json_visit vars (unclosed s) p = some p

  abbrev pub close_object : Outcome P → Outcome P
  close_object (done p) = done (print object_end p)
  close_object overflow = overflow
  close_object out_of_fuel = out_of_fuel

  unfoldable pub sf_json_print_buf : (Text → Option Text) → Text → P → Outcome P
  unfolding json_visit
  sf_json_print_buf vars varexp p =
      close_object (scan b'$' (json_visit vars) (suc (length varexp)) varexp (print object_begin p))
