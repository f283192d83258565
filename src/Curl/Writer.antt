-- ===== src/Curl/Writer.antt =====
-- The bounds of the writers.
use spiderframe.Base.{
  ℕ, ◌+◌, ◌≤◌, ◌<◌, ◌≡◌, sym, ap, ◌∙◌, ◌↔◌, ◌++◌, arith, Text, length, length-append, take,
  take_all,
}
use spiderframe.Curl.{
  Received, Write, taken, writer, writer_hdr, writer_html, max_hdr_size, max_html_size,
}

-- What a writer of a buffer of `max_size` bytes does with a piece.
pub record Took (max_size : ℕ) (buf : Received) (s : Text) (write : Write) : Type 0 where
  pub buf' : Received
  pub nul : ℕ
  pub run : write ≡ taken buf' nul
  pub text : buf'.text ≡ buf.text ++ s
  pub counted : length buf'.text ≡ buf'.len
  pub within : (nul < max_size) ↔ (buf.len + length s + 10 ≤ max_size)

writer-Took :
    (max_size : ℕ) (buf : Received) (s : Text)
    → length buf.text ≡ buf.len
    → buf.len + length s + 5 ≤ max_size
    → Took max_size buf s (writer max_size buf s)
writer-Took max_size buf s c room =
    let e : take buf.len buf.text ≡ buf.text =
      ap (λ (n : ℕ). take n buf.text) (sym c) ∙ take_all buf.text in
    record {
      buf' = record { len = buf.len + length s; text = take buf.len buf.text ++ s };
      nul = 8 + (buf.len + length s) + 1;
      run = ground arith;
      text = rw e;
      counted = rw e (omega (arith, length-append {0} buf.text s));
      within = ((λ h. omega arith), (λ h. omega arith));
    }

-- If the kept length is that of the text, a piece that fits the limit of SF_MAX_HTML_SIZE - 5 is
-- appended by writer_html, and the kept length stays right; the NUL is written inside the buffer of
-- SF_MAX_HTML_SIZE bytes if and only if the piece leaves ten bytes of it free.
pub writer_html-Took :
    (buf : Received) (s : Text)
    → length buf.text ≡ buf.len
    → buf.len + length s + 5 ≤ max_html_size
    → Took max_html_size buf s (writer_html buf s)
unfolding writer_html
writer_html-Took buf s c room = writer-Took max_html_size buf s c room

-- The same of writer_hdr and SF_MAX_HDR_SIZE.
pub writer_hdr-Took :
    (buf : Received) (s : Text)
    → length buf.text ≡ buf.len
    → buf.len + length s + 5 ≤ max_hdr_size
    → Took max_hdr_size buf s (writer_hdr buf s)
unfolding writer_hdr
writer_hdr-Took buf s c room = writer-Took max_hdr_size buf s c room
