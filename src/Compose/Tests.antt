-- ===== src/Compose/Tests.antt =====
-- Compose files on concrete texts.
use mathlib.Core.List.{Sublist}
use sdk_local_manager.Prelude.{◌≡◌, refl, true, false, List, [], ◌∷◌, length}
use sdk_local_manager.Prelude.Text.{Text, txt, strip, has_suffix, has_text}
use sdk_local_manager.Prelude.Lines.{is_line_break}
use sdk_local_manager.Compose.{join_lines, keep_lines, ends_at}
use sdk_local_manager.Compose.Healthcheck.{
  add_postgres_healthcheck_start_period, edited, opened, block_of, amended, opens_healthcheck,
  needs_start_period, child_indent, insert_after_last, with_end, start_period_line, newline_of,
}
use sdk_local_manager.Compose.Kept.{add_postgres_healthcheck_start_period-Kept}
use sdk_local_manager.Compose.Edition.{Edition, add_postgres_healthcheck_start_period-Edition}

abbrev database_service : Text
database_service = txt "db:\n  healthcheck:\n    test: pg_isready\n    # slow\n  image: a\n"

abbrev started_service : Text
started_service =
    txt
      "db:\n  healthcheck:\n    test: pg_isready\n    start_period: 120s\n    # slow\n  image: a\n"

period_added : add_postgres_healthcheck_start_period database_service ≡ (started_service, true)
unfolding add_postgres_healthcheck_start_period edited opened block_of amended opens_healthcheck
    needs_start_period child_indent insert_after_last with_end start_period_line newline_of
    keep_lines ends_at is_line_break strip has_suffix has_text
period_added = refl

period_kept : add_postgres_healthcheck_start_period started_service ≡ (started_service, false)
unfolding add_postgres_healthcheck_start_period edited opened block_of amended opens_healthcheck
    needs_start_period child_indent insert_after_last with_end start_period_line newline_of
    keep_lines ends_at is_line_break strip has_suffix has_text
period_kept = refl

add_postgres_healthcheck_start_period-Kept_example :
    Sublist database_service (add_postgres_healthcheck_start_period database_service).0
add_postgres_healthcheck_start_period-Kept_example =
    add_postgres_healthcheck_start_period-Kept database_service

abbrev database_lines : List Text
database_lines = txt "  healthcheck:\n" ∷ txt "    test: pg_isready\n" ∷ []

edited_three : length (edited (length database_lines) database_lines).0 ≡ 3
unfolding edited opened block_of amended opens_healthcheck needs_start_period child_indent
    insert_after_last with_end start_period_line newline_of strip has_suffix has_text
edited_three = refl

add_postgres_healthcheck_start_period-Edition_example :
    (ms : List Text) × Edition
      (keep_lines database_service)
      ms
      (add_postgres_healthcheck_start_period database_service).1
    × ((add_postgres_healthcheck_start_period database_service).0 ≡ join_lines ms)
add_postgres_healthcheck_start_period-Edition_example =
    add_postgres_healthcheck_start_period-Edition database_service
