-- ===== src/LogDisplay.antt =====
-- odoo_manager_core/odoo_log_display.py: the log of Odoo as it is shown, without the traces of files
-- that the cleaning of its store did not find.
pub mod Lines
pub mod Tests
use sdk_local_manager.Prelude.{
  ℕ, zero, suc, Bool, true, false, not, ◌&&◌, ◌||◌, Option, none, some, List, [], ◌∷◌, ◌++◌, map,
  if◌then◌else◌, ◌==◌, Eq_ℕ, Eq_List, contains, leb, length,
}
use sdk_local_manager.Prelude.Text.{Text, txt, has_text, rstrip_newlines}
use sdk_local_manager.Prelude.Lines.{split_lines}
use sdk_local_manager.Prelude.Sorting.{sort_texts}
use sdk_local_manager.Prelude.Regex.{
  Re, Place, one, seq, alt, many, many_lazy, many1, maybe, times, group, at_start, at_edge, lit,
  digit, space, any_char, not_space, match_re, search_re, group_of,
}

abbrev two : Re
two = times 2 digit

unfoldable pub log_record : Re
log_record = seq at_start (
    seq
      (maybe
        (seq (many1 (one (λ c. not (c == b'|' || c == 10)))) (seq (lit (txt "|")) (many space))))
      (seq (times 4 digit) (
        seq (lit (txt "-")) (
          seq two (
            seq (lit (txt "-")) (
              seq two (
                seq (lit (txt " ")) (
                  seq two (
                    seq (lit (txt ":")) (
                      seq two (
                        seq (lit (txt ":")) (
                          seq two
                            (seq (one (λ c. c == b',' || c == b'.')) (many1 digit))))))))))))))

unfoldable pub gc_missing_header : Re
gc_missing_header = seq at_edge (
    seq (lit (txt "INFO")) (
      seq at_edge (
        seq (many any_char) (
          seq at_edge (
            seq (lit (txt "odoo.addons.base.models.ir_attachment: _file_gc could not unlink ")) (
              seq (many_lazy any_char) (
                seq (lit (txt "/filestore/")) (
                  seq (group 1 (many1 (one (λ c. not (c == b'/')))))
                    (seq (lit (txt "/")) (many1 not_space))))))))))

abbrev pub is_record : Text → Bool
is_record line = elim (match_re log_record line) [ none ↦ false | some m ↦ true ]

abbrev pub database_of : Option Place → Option Text
database_of none = none
database_of (some m) = group_of 1 m

-- The database of a header, when the line is one.
unfoldable pub header : Text → Option Text
header line = database_of (search_re gc_missing_header line)

pub record Display : Type 0 where
  pub pending : List Text
  pub missing_count : ℕ
  pub databases : List Text

-- A line, or the sentence that sums traces up.
pub data Shown : Type 0 where
  line : Text → Shown
  summary : (databases : List Text) (count : ℕ) → Shown

-- `"\n".join(lines)`
abbrev joined : List Text → Text
joined [] = []
joined (l ∷ []) = l
joined (l ∷ m ∷ ls) = l ++ 10 ∷ joined (m ∷ ls)

unfoldable pub is_gc_body : List Text → Bool
is_gc_body lines =
    let body = joined lines in
    has_text (txt "_gc_file_store_unsafe") body
    && has_text (txt "os.unlink") body
    && has_text (txt "FileNotFoundError: [Errno 2]") body

abbrev add_member : Text → List Text → List Text
add_member x s = if contains s x then s else s ++ x ∷ []

abbrev pub emptied : Display → Display
emptied d = record d { pending = [] }

abbrev pub flushed : Option Text → List Text → List Text → Display → List Shown × Display
flushed none lines body d = (map line lines, emptied d)
flushed (some database) lines body d =
    if is_gc_body body
    then (
      [],
      record d {
        pending = [];
        missing_count = suc d.missing_count;
        databases = add_member database d.databases;
      },
    )
    else (map line lines, emptied d)

abbrev pub flush_lines : List Text → Display → List Shown × Display
flush_lines [] d = ([], d)
flush_lines (first ∷ body) d = flushed (header first) (first ∷ body) body d

unfoldable pub flush_pending : Display → List Shown × Display
flush_pending d = flush_lines d.pending d

abbrev pub summed_up : ℕ → Display → List Shown × Display
summed_up zero d = ([], d)
summed_up (suc n) d =
    (summary (sort_texts d.databases) (suc n) ∷ [], record d { missing_count = 0; databases = [] })

unfoldable pub flush_summary : Display → List Shown × Display
flush_summary d = summed_up d.missing_count d

abbrev pub is_empty {ℓ} : {A : Type ℓ} → List A → Bool
is_empty [] = true
is_empty (x ∷ xs) = false

abbrev pub first_flush : Text → Display → List Shown × Display
first_flush l d =
    if not (is_empty d.pending) && (is_record l || leb 12 (length d.pending))
    then flush_pending d
    else ([], d)

abbrev pub is_header : Text → Bool
is_header l = elim (header l) [ none ↦ false | some database ↦ true ]

-- The rest of `feed`, after what the first condition gave.
abbrev pub kept_or_shown : Text → List Shown × Display → List Shown × Display
kept_or_shown l (output, d) =
    if (is_empty d.pending && (is_record l && is_header l)) || not (is_empty d.pending)
    then (output, record d { pending = d.pending ++ l ∷ [] })
    else (let (sums, d') = flush_summary d in (output ++ (sums ++ line l ∷ []), d'))

unfoldable pub feed : Text → Display → List Shown × Display
feed text d = let l = rstrip_newlines text in kept_or_shown l (first_flush l d)

unfoldable pub finish_display : Display → List Shown
finish_display d = let (lines, d') = flush_pending d in lines ++ (flush_summary d').0

unfoldable pub run_display : List Text → Display → List Shown
run_display [] d = finish_display d
run_display (l ∷ ls) d = let (output, d') = feed l d in output ++ run_display ls d'

abbrev pub new_display : Display
new_display = record { pending = []; missing_count = 0; databases = [] }

-- What `compact_odoo_log_text` joins.
unfoldable pub compact_odoo_log_text : Text → List Shown
compact_odoo_log_text value = run_display (split_lines value) new_display
