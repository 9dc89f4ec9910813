-- ===== src/Archives/Multipart.antt =====
-- archives.py, `save_multipart_upload`: the reading of a form as its bytes arrive.
--
-- `fill` adds a piece of the stream to the buffer. The bytes of a part go to its sink up to the
-- delimiter that closes it, which can stand across two pieces.
use sdk_local_manager.Prelude.{
  ℕ, zero, suc, ◌+◌, ◌-◌, ◌*◌, min, Bool, true, false, ◌||◌, Option, none, some, List, [], ◌∷◌,
  ◌++◌, length, take, drop, ltb, if◌then◌else◌, ◌==◌, Eq_ℕ, Eq_List,
}
use sdk_local_manager.Prelude.Text.{Text, txt, has_prefix}
use sdk_local_manager.Archives.Uploads.{Stream, read}
pub mod Filling
pub mod Search
pub mod Delimiters
pub mod Copied
pub mod Ends

-- `buffer`, `remaining` and the connection
pub record Upload : Type 0 where
  pub buffer : Text
  pub remaining : ℕ
  pub stream : Stream

-- The `ValueError`s; `out_of_rounds` is none, but a loop given too few rounds here.
pub data Failure : Type 0 where
  no_boundary interrupted unreadable_form unreadable_headers field_too_large truncated : Failure
  out_of_rounds : Failure

pub data UploadResult (A : Type 0) : Type 0 where
  failed : Failure → Upload → UploadResult A
  done : A → Upload → UploadResult A

abbrev pub max_header_bytes : ℕ
max_header_bytes = 16 * 1024

abbrev pub max_field_bytes : ℕ
max_field_bytes = 64 * 1024

-- Where the bytes of a part go: the destination file, a text field, or nowhere.
pub data Sink : Type 0 where
  file field : Text → Sink
  discard : Sink

-- `sink.write(bytes)`; `none`: the field is too large.
unfoldable pub write_to : Sink → Text → Option Sink
write_to (file t) bytes = some (file (t ++ bytes))
write_to discard bytes = some discard
write_to (field t) bytes =
    if ltb max_field_bytes (length t + length bytes) then none else some (field (t ++ bytes))

-- `buffer.find(delimiter)`
abbrev pub one_later : Option ℕ → Option ℕ
one_later none = none
one_later (some i) = some (suc i)

unfoldable pub find_text : Text → Text → Option ℕ
find_text part [] = if has_prefix part [] then some 0 else none
find_text part (c ∷ t) =
    let later = find_text part t in if has_prefix part (c ∷ t) then some 0 else one_later later

pub data Filled : Type 0 where
  no_more cut_short : Filled
  more : Upload → Filled

-- What a read of the connection adds: an interrupted connection gives no byte.
abbrev pub filled : Text → ℕ → Text × Stream → Filled
filled buffer remaining ([], rest) = cut_short
filled buffer remaining (c ∷ t, rest) =
    more
      (record { buffer = buffer ++ (c ∷ t); remaining = remaining - length (c ∷ t); stream = rest })

-- `\r\n`, or `--` after the last part
abbrev pub is_closing : Text → Bool
is_closing suffix = suffix == txt "\r\n" || suffix == txt "--"

abbrev pub next_fill : (Upload → UploadResult Unit) → Upload → Filled → UploadResult Unit
next_fill go u no_more = done tt u
next_fill go u cut_short = failed interrupted u
next_fill go u (more u') = go u'

-- A round of the loop that copies a part: `closed` at its delimiter.
pub data CopyRound : Type 0 where
  stopped : Failure → Upload → CopyRound
  closed goes_on : Sink → Upload → CopyRound

abbrev pub with_buffer : Upload → Text → Upload
with_buffer u buffer = record u { buffer = buffer }

abbrev pub written_to : Option Sink → Upload → (Sink → CopyRound) → CopyRound
written_to none u next = stopped field_too_large u
written_to (some sink) u next = next sink

abbrev pub at_delimiter : Text → ℕ → Sink → UploadResult Unit → CopyRound
at_delimiter delimiter i sink (failed f u) = stopped f u
at_delimiter delimiter i sink (done _ u) =
    if is_closing (take 2 (drop (i + length delimiter) u.buffer))
    then written_to (write_to sink (take i u.buffer)) u
        (λ s. closed s (with_buffer u (drop (i + length delimiter) u.buffer)))
    else written_to (write_to sink (take (suc i) u.buffer)) u
        (λ s. goes_on s (with_buffer u (drop (suc i) u.buffer)))

abbrev pub after_fill : Sink → Upload → Filled → CopyRound
after_fill sink u no_more = stopped truncated u
after_fill sink u cut_short = stopped interrupted u
after_fill sink u (more u') = goes_on sink u'

abbrev pub next_round : (Sink → Upload → UploadResult Sink) → CopyRound → UploadResult Sink
next_round go (stopped f u) = failed f u
next_round go (closed sink u) = done sink u
next_round go (goes_on sink u) = go sink u

module _ (chunk_size : ℕ) where
  unfoldable pub fill_from : Text → ℕ → Stream → Filled
  fill_from buffer zero stream = no_more
  fill_from buffer (suc r) stream = filled buffer (suc r) (read (min chunk_size (suc r)) stream)

  abbrev pub fill : Upload → Filled
  fill u = fill_from u.buffer u.remaining u.stream

  -- `while len(buffer) < n and fill(): pass`: each round reads one byte at least.
  unfoldable pub fill_until : ℕ → ℕ → Upload → UploadResult Unit
  fill_until zero n u = done tt u
  fill_until (suc fuel) n u =
      if ltb (length u.buffer) n then next_fill (fill_until fuel n) u (fill u) else done tt u

  -- The last `keep` bytes stay in the buffer, since a delimiter can begin there.
  abbrev pub without_delimiter : ℕ → Sink → Upload → CopyRound
  without_delimiter keep sink u =
      let ready = length u.buffer - keep in
      let u' = with_buffer u (drop ready u.buffer) in
      written_to (write_to sink (take ready u.buffer)) u (λ s. after_fill s u' (fill u'))

  abbrev pub at_find : Text → Sink → Upload → Option ℕ → CopyRound
  at_find delimiter sink u (some i) =
      at_delimiter delimiter i sink (fill_until u.remaining (i + length delimiter + 2) u)
  at_find delimiter sink u none = without_delimiter (suc (length delimiter)) sink u

  unfoldable pub copy_round : Text → Sink → Upload → CopyRound
  copy_round delimiter sink u = at_find delimiter sink u (find_text delimiter u.buffer)

  unfoldable pub copy_rounds : ℕ → Text → Sink → Upload → UploadResult Sink
  copy_rounds zero delimiter sink u = failed out_of_rounds u
  copy_rounds (suc fuel) delimiter sink u =
      next_round (copy_rounds fuel delimiter) (copy_round delimiter sink u)

  -- The bytes of a part, from the first to the delimiter that closes it. Each round writes a byte of
  -- the buffer or reads one of the connection.
  unfoldable pub copy_part : Text → Sink → Upload → UploadResult Sink
  copy_part delimiter sink u =
      copy_rounds (suc (length u.buffer + (u.remaining + u.remaining))) delimiter sink u
