-- ===== src/Archives/Extract.antt =====
-- What is extracted of an archive of modules stays in its folder.
use mathlib.Core.Path.{subst}
use sdk_local_manager.Prelude.{
  ◌≤◌, ◌≡◌, ◌⊎◌, refl, sym, true, false, List, [], ◌∷◌, arith, any, if◌then◌else◌, Bool-cases, inl,
  inr, Eq_ℕ, Eq_List, length, All, All-map, eq_iff,
}
use sdk_local_manager.Prelude.Text.{Text}
use sdk_local_manager.Archives.{
  ZipInfo, extracted, Check, accepted, skipped, rejected, Checked, fine, wrong, check_entry,
  check_entries, safe_extract_zip, extract_all, file_type, type_link, is_plain, has_root, has_drive,
  is_forbidden, is_parent, path_parts, is_under, max_zip_entries, max_zip_uncompressed_bytes,
  total_size, finish_extract, add_check, is_skipped,
}

module _ (base : List Text) (resolve : Text → List Text) where
  -- An entry with a relative path, no way up, the type of a file or of a folder, and a place in the
  -- folder.
  abbrev pub IsSafe : ZipInfo → Type 0
  IsSafe info =
      (has_root info.filename ≡ false)
      × (has_drive info.filename ≡ false)
      × (any is_forbidden info.filename ≡ false)
      × (any is_parent (path_parts info.filename) ≡ false)
      × (is_plain (file_type info) ≡ true)
      × (is_under base (resolve info.filename) ≡ true)

  check_entry-accepted : (info : ZipInfo) → check_entry base resolve info ≡ accepted → IsSafe info
  unfolding check_entry
  check_entry-accepted info h =
      (ground arith, ground arith, ground arith, ground arith, ground arith, ground arith)

  check_entry-skipped :
      (info : ZipInfo) → check_entry base resolve info ≡ skipped → file_type info ≡ type_link
  unfolding check_entry
  check_entry-skipped info h = ground arith

  -- An entry that passed, or that the names left out mention.
  abbrev IsSettled : List Text → ZipInfo → Type 0
  IsSettled names info = IsSafe info ⊎ (is_skipped names info ≡ true)

  IsSettled-cons :
      (name : Text) (names : List Text) (info : ZipInfo)
      → IsSettled names info
      → IsSettled (name ∷ names) info
  IsSettled-cons name names info (inl s) = inl s
  IsSettled-cons name names info (inr k) = inr (ground arith)

  add_check-fine :
      (info : ZipInfo) (c : Check) (rest : Checked) (infos : List ZipInfo) (names : List Text)
      → check_entry base resolve info ≡ c
      → ((ns : List Text) → rest ≡ fine ns → All (IsSettled ns) infos)
      → add_check info.filename c rest ≡ fine names
      → All (IsSettled names) (info ∷ infos)
  add_check-fine info (rejected x) rest infos names e f h = absurd (ground arith)
  add_check-fine info accepted rest infos names e f h =
      (inl (check_entry-accepted info e), f names h)
  add_check-fine info skipped (wrong x) infos names e f h = absurd (ground arith)
  add_check-fine info skipped (fine ns) infos names e f h =
      let same : info.filename ∷ ns ≡ names = ground arith in
      subst (λ k. All (IsSettled k) (info ∷ infos)) same
        (
          inr (ground (arith, eq_iff info.filename info.filename)),
          All-map (IsSettled ns) (IsSettled (info.filename ∷ ns)) (IsSettled-cons info.filename ns)
              infos (f ns refl),
        )

  check_entries-fine :
      (infos : List ZipInfo) (names : List Text)
      → check_entries base resolve infos ≡ fine names
      → All (IsSettled names) infos
  unfolding check_entries
  check_entries-fine [] names h = tt
  check_entries-fine (info ∷ infos) names h =
      add_check-fine info (check_entry base resolve info) (check_entries base resolve infos) infos
        names refl (check_entries-fine infos) h

  keep-settled :
      (names : List Text) (info : ZipInfo) (rest : List ZipInfo)
      → IsSettled names info
      → All IsSafe rest
      → All IsSafe (if is_skipped names info then rest else info ∷ rest)
  keep-settled names info rest (inl s) h = elim (Bool-cases (is_skipped names info)) [
    | inl e ↦ subst (λ b. All IsSafe (if b then rest else info ∷ rest)) (sym e) h
    | inr e ↦ subst (λ b. All IsSafe (if b then rest else info ∷ rest)) (sym e) (s, h)
  ]
  keep-settled names info rest (inr e) h =
      subst (λ b. All IsSafe (if b then rest else info ∷ rest)) (sym e) h

  extract_all-IsSafe :
      (names : List Text) (infos : List ZipInfo)
      → All (IsSettled names) infos
      → All IsSafe (extract_all names infos)
  unfolding extract_all
  extract_all-IsSafe names [] h = tt
  extract_all-IsSafe names (info ∷ infos) h =
      keep-settled names info (extract_all names infos) h.0 (extract_all-IsSafe names infos h.1)

  finish_extract-IsSafe :
      (infos : List ZipInfo) (c : Checked) (written : List ZipInfo) (links : List Text)
      → check_entries base resolve infos ≡ c
      → finish_extract infos c ≡ extracted written links
      → All IsSafe written
  finish_extract-IsSafe infos (wrong x) written links e h = absurd (ground arith)
  finish_extract-IsSafe infos (fine names) written links e h =
      let same : extract_all names infos ≡ written = ground arith in
      subst (All IsSafe) same (extract_all-IsSafe names infos (check_entries-fine infos names e))

  -- When an archive is extracted, it is within the limits, and each entry that is written has a
  -- relative path without a way up, is a plain file or folder, and lands in the folder.
  pub safe_extract_zip-IsSafe :
      (infos written : List ZipInfo) (links : List Text)
      → safe_extract_zip base resolve infos ≡ extracted written links
      → (length infos ≤ max_zip_entries)
        × (total_size infos ≤ max_zip_uncompressed_bytes)
        × All IsSafe written
  unfolding safe_extract_zip
  safe_extract_zip-IsSafe infos written links h = (
    ground arith,
    ground arith,
    finish_extract-IsSafe infos (check_entries base resolve infos) written links refl
        (ground arith),
  )
