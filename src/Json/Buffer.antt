-- ===== src/Json/Buffer.antt =====
-- The bounds of the print buffer. `json_buf` has JSON_MAX_BUF_LEN + 1 bytes, eight of which are the
-- length, so a text of JSON_MAX_BUF_LEN - 8 bytes is the longest that fits with its NUL.
use spiderframe.Base.{
  take_all, ℕ, ◌+◌, ◌≤◌, ◌<◌, ◌≡◌, sym, ap, ◌∙◌, ◌++◌, arith, Text, length, length-append, take,
}
use spiderframe.Json.{PrintBuf, printed, json_max_buf_len, sf_json_print_buf_callback}

abbrev pub json_buf_size : ℕ
json_buf_size = json_max_buf_len + 1

-- The length that is kept is that of the text.
abbrev pub IsCounted : PrintBuf → Type 0
IsCounted buf = length buf.text ≡ buf.len

-- What a call that is not refused leaves behind.
pub record Appended (buf : PrintBuf) (s : Text) (buf' : PrintBuf) (last : ℕ) : Type 0 where
  pub counted : IsCounted buf'
  pub text : buf'.text ≡ buf.text ++ s
  pub within : last < json_buf_size

-- If the kept length is that of the text, and the text with the piece is within JSON_MAX_BUF_LEN -
-- 8 bytes, the callback appends the piece, keeps the length right, and writes its NUL inside
-- `json_buf`.
pub callback-Appended :
    (buf : PrintBuf) (s : Text)
    → IsCounted buf
    → buf.len + length s + 8 ≤ json_max_buf_len
    → (buf' : PrintBuf) × (last : ℕ) × (sf_json_print_buf_callback buf s ≡ printed buf' last)
      × Appended buf s buf' last
unfolding sf_json_print_buf_callback
callback-Appended buf s c room =
    let e : take buf.len buf.text ≡ buf.text =
      ap (λ (n : ℕ). take n buf.text) (sym c) ∙ take_all buf.text in
    (
      record { len = buf.len + length s; text = take buf.len buf.text ++ s },
      8 + (buf.len + length s),
      ground arith,
      record {
        counted = rw e (omega (arith, length-append {0} buf.text s));
        text = rw e;
        within = omega arith;
      },
    )

-- If the text with the piece is within JSON_MAX_BUF_LEN bytes but not within JSON_MAX_BUF_LEN - 8,
-- the callback accepts the piece and writes its NUL behind the end of `json_buf`.
pub callback-outside :
    (buf : PrintBuf) (s : Text)
    → json_max_buf_len < buf.len + length s + 8
    → buf.len + length s ≤ json_max_buf_len
    → (buf' : PrintBuf) × (last : ℕ) × (sf_json_print_buf_callback buf s ≡ printed buf' last)
      × (json_buf_size ≤ last)
unfolding sf_json_print_buf_callback
callback-outside buf s over under = (
  record { len = buf.len + length s; text = take buf.len buf.text ++ s },
  8 + (buf.len + length s),
  ground arith,
  omega arith,
)
