-- ===== src/LogDisplay/Tests.antt =====
-- A log with a trace that is summed up, and the theorem of the lines at it.
use sdk_local_manager.Prelude.{◌≡◌, refl, [], ◌∷◌, ◌++◌, map, Eq_ℕ, Eq_List}
use sdk_local_manager.Prelude.Text.{Text, txt, has_text, rstrip_newlines}
use sdk_local_manager.Prelude.Lines.{split_lines}
use sdk_local_manager.Prelude.Regex.{match_re, search_re}
use sdk_local_manager.Prelude.Sorting.{sort_texts, insert_text}
use sdk_local_manager.LogDisplay.{
  line, summary, compact_odoo_log_text, run_display, feed, finish_display, flush_pending,
  flush_summary, header, is_gc_body, log_record, gc_missing_header,
}
use sdk_local_manager.LogDisplay.Lines.{Part, lines_of, compact_odoo_log_text-Part}

abbrev trace : Text
trace =
    txt
      "2026-10-31 10:00:00,1 1 INFO db odoo.addons.base.models.ir_attachment: _file_gc could not unlink /d/filestore/db/ab/cd"
    ++ 10 ∷ txt "in _gc_file_store_unsafe"
    ++ 10 ∷ txt "os.unlink(p)"
    ++ 10 ∷ txt "FileNotFoundError: [Errno 2] x"
    ++ 10 ∷ []

abbrev log : Text
log = txt "start" ++ 10 ∷ trace ++ txt "2026-10-31 10:00:01,2 1 INFO db odoo: end"

shown_log :
    compact_odoo_log_text log
    ≡ line (txt "start")
      ∷ summary (txt "db" ∷ []) 1
      ∷ line (txt "2026-10-31 10:00:01,2 1 INFO db odoo: end")
      ∷ []
unfolding compact_odoo_log_text run_display feed finish_display flush_pending flush_summary header
    is_gc_body log_record gc_missing_header match_re search_re has_text split_lines rstrip_newlines
    sort_texts insert_text
shown_log = refl

compact_odoo_log_text-Part_example :
    Part (lines_of (compact_odoo_log_text log)) (map rstrip_newlines (split_lines log))
compact_odoo_log_text-Part_example = compact_odoo_log_text-Part log
