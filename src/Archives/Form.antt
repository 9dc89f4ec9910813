-- ===== src/Archives/Form.antt =====
-- archives.py, `save_multipart_upload` as a whole: the parts of a form one after the other.
--
-- `encode` and `decode` are Python's `encode` and `decode` of UTF-8, the latter with replacement.
pub mod Ends
pub mod Drained
mod Tests
use sdk_local_manager.Prelude.{
  ℕ, zero, suc, ◌+◌, ◌≡◌, Bool, true, false, not, ◌&&◌, Option, none, some, List, [], ◌∷◌, ◌++◌,
  length, take, drop, ltb, any, if◌then◌else◌, ◌==◌, Eq_ℕ, Eq_List,
}
use sdk_local_manager.Prelude.Text.{Text, txt, has_prefix, strip, lower}
use sdk_local_manager.Prelude.Dict
use sdk_local_manager.Prelude.Dict.{Dict}
use sdk_local_manager.Prelude.Options.{◌>>=◌}
use sdk_local_manager.Prelude.Regex.{
  Re, one, seq, many, many1, group, lit, search_re, group_of, cons_first, partition,
}
use sdk_local_manager.Archives.{path_parts, last_part}
use sdk_local_manager.Archives.Uploads.{Stream}
use sdk_local_manager.Archives.Multipart.{
  Upload, UploadResult, failed, done, Failure, no_boundary, unreadable_form, unreadable_headers,
  interrupted, out_of_rounds, Sink, file, field, discard, Filled, no_more, cut_short, more, fill,
  next_fill, fill_until, find_text, max_header_bytes, with_buffer, copy_part,
}

-- `.strip('"')` at the beginning and at the end of a text
abbrev skip_quotes : Text → Text
skip_quotes [] = []
skip_quotes (c ∷ t) = let rest = skip_quotes t in if c == b'"' then rest else c ∷ t

abbrev skip_end_quotes : Text → Text
skip_end_quotes [] = []
skip_end_quotes (c ∷ t) =
    let rest = skip_end_quotes t in if c == b'"' && rest == [] then [] else c ∷ rest

unfoldable pub boundary_re : Re
boundary_re = seq (lit (txt "boundary=")) (group 1 (many1 (one (λ c. not (c == b';')))))

unfoldable pub multipart_boundary : (Text → Text) → Text → Option Text
multipart_boundary encode content_type = do
  found ← search_re boundary_re content_type
  boundary ← group_of 1 found
  some (encode (skip_end_quotes (skip_quotes (strip boundary))))

-- `text.split("\r\n")`; `skipped`: the character is the second of a line end.
unfoldable pub split_crlf : Bool → Text → List Text
split_crlf skipped [] = [] ∷ []
split_crlf skipped (c ∷ t) =
    let ends = c == 13 && has_prefix (txt "\n") t && not skipped in
    let rest = split_crlf ends t in
    if skipped then rest else if ends then [] ∷ rest else cons_first c rest

abbrev pub Headers : Type 0
Headers = Dict Text Text

unfoldable pub add_header : Headers → Text → Headers
add_header headers line =
    let (key, value) = partition b':' line in
    if any (λ c. c == b':') line
    then Dict.put (lower (strip key)) (strip value) headers
    else headers

unfoldable pub read_headers : Headers → List Text → Headers
read_headers headers [] = headers
read_headers headers (line ∷ lines) = read_headers (add_header headers line) lines

abbrev or_empty : Option Text → Text
or_empty none = []
or_empty (some t) = t

-- `headers.get("content-disposition", "")`
unfoldable pub disposition_of : Text → Text
disposition_of head =
    or_empty (Dict.get (txt "content-disposition") (read_headers [] (split_crlf false head)))

abbrev not_quote : Re
not_quote = one (λ c. not (c == b'"'))

unfoldable pub name_re : Re
name_re = seq (lit (txt "name=\"")) (seq (group 1 (many1 not_quote)) (one (λ c. c == b'"')))

unfoldable pub filename_re : Re
filename_re = seq (lit (txt "filename=\"")) (seq (group 1 (many not_quote)) (one (λ c. c == b'"')))

unfoldable pub group_in : Re → Text → Option Text
group_in re t = search_re re t >>= group_of 1

pub record Form : Type 0 where
  pub fields : Dict Text Text
  pub filename : Option Text
  -- the content of the destination file, once it is written
  pub saved : Option Text

-- What a part is for: the first file of the awaited field, a text field, or nothing.
unfoldable pub sink_for : Text → Option Text → Text → Option Text → Sink
sink_for file_field (some sent) name none = if name == file_field then file [] else discard
sink_for file_field (some sent) name (some known) = discard
sink_for file_field none name filename = if name == [] then discard else field []

unfoldable pub stored : (Text → Text) → Option Text → Text → Form → Sink → Form
stored decode sent name form (file t) = record form {
  filename = some (last_part (path_parts (or_empty sent)));
  saved = some t;
}
stored decode sent name form (field t) = record form {
  fields = Dict.put name (decode t) form.fields;
}
stored decode sent name form discard = form

abbrev pub and_then :
    {A B : Type 0} → UploadResult A → (A → Upload → UploadResult B) → UploadResult B
and_then (failed f u) next = failed f u
and_then (done a u) next = next a u

-- `while (i := buffer.find(part)) < 0`: refused when the buffer is too large or the body ends.
abbrev pub fill_again : Failure → (Upload → UploadResult ℕ) → Upload → Filled → UploadResult ℕ
fill_again refusal go u no_more = failed refusal u
fill_again refusal go u cut_short = failed interrupted u
fill_again refusal go u (more u') = go u'

abbrev pub found_or : Option ℕ → Upload → UploadResult ℕ → UploadResult ℕ
found_or (some i) u otherwise = done i u
found_or none u otherwise = otherwise

abbrev pub refused_with : {A : Type 0} → Failure → UploadResult Unit → UploadResult A
refused_with f (failed g u) = failed f u
refused_with f (done _ u) = failed f u

module _ (chunk_size : ℕ) where
  unfoldable pub find_or_fill : ℕ → Failure → Text → Upload → UploadResult ℕ
  find_or_fill zero refusal part u = failed out_of_rounds u
  find_or_fill (suc fuel) refusal part u = found_or (find_text part u.buffer) u (
      if ltb max_header_bytes (length u.buffer)
      then failed refusal u
      else fill_again refusal (find_or_fill fuel refusal part) u (fill chunk_size u))

  -- The rest of the body, read so that the connection holds no more of it.
  unfoldable pub drain : ℕ → Upload → UploadResult Unit
  drain zero u = done tt u
  drain (suc fuel) u = next_fill (drain fuel) u (fill chunk_size (with_buffer u []))

module _ (chunk_size : ℕ) (decode : Text → Text) (file_field delimiter : Text) where
  unfoldable pub parse_part :
      (Form → Upload → UploadResult Form) → Form → ℕ → Upload → UploadResult Form
  parse_part go form header_end u =
      let disposition = disposition_of (decode (take header_end u.buffer)) in
      let name = or_empty (group_in name_re disposition) in
      let sent = group_in filename_re disposition in
      and_then
        (copy_part chunk_size delimiter (sink_for file_field sent name form.filename)
          (with_buffer u (drop (header_end + 4) u.buffer)))
        (λ sink. go (stored decode sent name form sink))

  abbrev pub part_or_end : (Form → Upload → UploadResult Form) → Form → Upload → UploadResult Form
  part_or_end go form u =
      if has_prefix (txt "--") u.buffer
      then done form u
      else and_then
          (find_or_fill chunk_size (suc u.remaining) unreadable_headers (txt "\r\n\r\n") u)
          (parse_part go form)

  -- Each part takes the four bytes at the end of its headers at least.
  unfoldable pub parse_parts : ℕ → Form → Upload → UploadResult Form
  parse_parts zero form u = failed out_of_rounds u
  parse_parts (suc fuel) form u =
      and_then (fill_until chunk_size u.remaining 2 u) (λ _. part_or_end (parse_parts fuel) form)

  unfoldable pub parse : Upload → UploadResult Form
  parse u = and_then (find_or_fill chunk_size (suc u.remaining) unreadable_form delimiter u) (λ i v.
      parse_parts (suc (length v.buffer + v.remaining))
        (record { fields = []; filename = none; saved = none })
        (with_buffer v (drop (i + length delimiter) v.buffer)))

module _ (chunk_size : ℕ) where
  -- The rest of the body is read after a refusal, and after the last part.
  unfoldable pub drained : UploadResult Form → UploadResult Form
  drained (failed f u) = refused_with f (drain chunk_size u.remaining u)
  drained (done form u) = and_then (drain chunk_size u.remaining u) (λ _. done form)

-- The first delimiter has no line end before it: one is put in the buffer.
abbrev pub after_boundary :
    (Text → Text) → (Text → Text) → Text → Stream → ℕ → ℕ → Option Text → UploadResult Form
after_boundary encode decode file_field stream content_length chunk_size none =
    failed no_boundary (record { buffer = []; remaining = content_length; stream = stream })
after_boundary encode decode file_field stream content_length chunk_size (some boundary) =
    drained chunk_size (
      parse chunk_size decode file_field (txt "\r\n--" ++ boundary)
        (record { buffer = txt "\r\n"; remaining = content_length; stream = stream }))

unfoldable pub save_multipart_upload :
    (Text → Text) → (Text → Text) → Stream → ℕ → Text → Text → ℕ → UploadResult Form
save_multipart_upload encode decode stream content_length content_type file_field chunk_size =
    after_boundary encode decode file_field stream content_length chunk_size
      (multipart_boundary encode content_type)
