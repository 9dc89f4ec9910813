-- ===== src/Archives/Form/Tests.antt =====
-- A form that arrives in pieces that cut its delimiters.
use sdk_local_manager.Prelude.{◌≡◌, refl, some, [], ◌∷◌, arith, Eq_ℕ, Eq_List}
use sdk_local_manager.Prelude.Text.{Text, txt, strip}
use sdk_local_manager.Prelude.Dict
use sdk_local_manager.Prelude.Regex.{search_re, partition, split_on}
use sdk_local_manager.Archives.{path_parts}
use sdk_local_manager.Archives.Uploads.{Stream, read}
use sdk_local_manager.Archives.Multipart.{
  Upload, done, file, write_to, find_text, fill_from, fill_until, copy_round, copy_rounds,
  copy_part,
}
use sdk_local_manager.Archives.Multipart.Search.{split_part}
use sdk_local_manager.Archives.Multipart.Copied.{copied, at_once, copy_part-at_once}
use sdk_local_manager.Archives.Multipart.Filling.{unread}
use sdk_local_manager.Archives.Multipart.Ends.{Run, copy_part-Run}
use sdk_local_manager.Archives.Form.{
  boundary_re, multipart_boundary, split_crlf, add_header, read_headers, disposition_of, name_re,
  filename_re, group_in, sink_for, stored, find_or_fill, drain, parse_part, parse_parts, parse,
  drained, save_multipart_upload,
}
use sdk_local_manager.Archives.Form.Drained.{IsDrained, save_multipart_upload-IsDrained}
use sdk_local_manager.Archives.Form.Ends.{IsEnded}

abbrev same : Text → Text
same t = t

abbrev content_type : Text
content_type = txt "multipart/form-data; boundary=\"xy\""

-- The body of a text field and a file, of which the delimiter is cut.
abbrev pieces : Stream
pieces =
    txt "--xy\r\ncontent-disposition: form-data; name=\"a\"\r\n\r\nb\r\n--x"
    ∷ txt
        "y\r\nContent-Disposition: form-data; name=\"f\"; filename=\"d/e.zip\"\r\n\r\n1\r\n--xyz\r"
    ∷ txt "\n2\r\n--xy--\r\n"
    ∷ []

boundary_read : multipart_boundary same content_type ≡ some (txt "xy")
unfolding multipart_boundary boundary_re search_re strip
boundary_read = refl

form_read :
    save_multipart_upload same same pieces 144 content_type (txt "f") 64
    ≡ done
        (record {
          fields = (txt "a", txt "b") ∷ [];
          filename = some (txt "e.zip");
          saved = some (txt "1\r\n--xyz\r\n2");
        })
        (record { buffer = txt "--\r\n"; remaining = 0; stream = [] })
unfolding save_multipart_upload multipart_boundary boundary_re search_re strip parse parse_part
    parse_parts find_or_fill drain drained disposition_of read_headers add_header split_crlf name_re
    filename_re group_in sink_for stored copy_part copy_rounds copy_round fill_until fill_from
    find_text write_to read Dict.put Dict.get path_parts partition split_on
form_read = refl

abbrev delimiter : Text
delimiter = txt "\r\n--xy"

abbrev connection : Upload
connection = record {
  buffer = txt "1\r\n--xyz";
  remaining = 11;
  stream = txt "2\r\n--x" ∷ txt "y--\r\n" ∷ [];
}

copy_part-at_once_example :
    copied (copy_part 64 delimiter (file []) connection)
    ≡ at_once [] (split_part delimiter (unread connection))
copy_part-at_once_example =
    copy_part-at_once 63 delimiter (omega arith) [] connection
      ((omega arith, (omega arith, tt)), omega arith)

copy_part-Run_example :
    Run 4 delimiter (file []) connection (copy_part 4 delimiter (file []) connection)
copy_part-Run_example = copy_part-Run 4 delimiter (omega arith) (file []) connection

save_multipart_upload-IsDrained_example :
    IsDrained 64 (save_multipart_upload same same pieces 144 content_type (txt "f") 64)
    × IsEnded (save_multipart_upload same same pieces 144 content_type (txt "f") 64)
save_multipart_upload-IsDrained_example =
    save_multipart_upload-IsDrained same same (txt "f") pieces 144 64 content_type (txt "xy")
      boundary_read
