-- ===== src/Archives/Form/Ends.antt =====
-- The reading of a form ends.
use sdk_local_manager.Prelude.{
  ℕ, zero, suc, ◌+◌, ◌≤◌, ◌<◌, ◌≡◌, refl, true, Option, none, some, [], length, length-drop, drop,
  ltb, if-holds, arith,
}
use sdk_local_manager.Prelude.Text.{Text, txt, has_prefix}
use sdk_local_manager.Archives.Multipart.{
  Upload, UploadResult, failed, done, Failure, unreadable_form, unreadable_headers, Filled, no_more,
  cut_short, more, fill, fill_until, find_text, Sink, with_buffer, max_header_bytes,
}
use sdk_local_manager.Archives.Multipart.Search.{find_text-has_prefix}
use sdk_local_manager.Archives.Multipart.Ends.{
  is_refusal, total, Later, fill_until-Later, ShrinksTo, fill-ShrinksTo, Within, copy_part-Within,
}
use sdk_local_manager.Archives.Form.{
  Form, find_or_fill, found_or, fill_again, parse_part, part_or_end, parse_parts, parse, and_then,
}

-- The outcome is one that the code has.
abbrev pub IsEnded : {A : Type 0} → UploadResult A → Type 0
IsEnded (failed f u) = is_refusal f ≡ true
IsEnded (done a u) = Unit

module _ (n : ℕ) (refusal : Failure) (h1 : is_refusal refusal ≡ true) (part : Text) where
  -- What was looked for is in the buffer.
  abbrev IsFound : Upload → UploadResult ℕ → Type 0
  IsFound u (failed f v) = is_refusal f ≡ true
  IsFound u (done i v) = (total v ≤ total u) × (find_text part v.buffer ≡ some i)

  find_or_fill-IsFound :
      (fuel : ℕ) (u : Upload) → u.remaining < fuel → IsFound u (find_or_fill n fuel refusal part u)
  unfolding find_or_fill
  find_or_fill-IsFound zero u h = absurd (omega arith)
  find_or_fill-IsFound (suc fuel) u h = of_search (find_text part u.buffer) refl _ (
      if-holds (IsFound u) (ltb max_header_bytes (length u.buffer)) (failed refusal u) _ (λ _. h1)
        (λ _.
          of_filled (fill n u) (fill-ShrinksTo n u.buffer u.remaining u.stream)
            (λ v l. find_or_fill-IsFound fuel v (omega (arith, h, l)))))
    where
      later : (v : Upload) (o : UploadResult ℕ) → total v ≤ total u → IsFound v o → IsFound u o
      later v (failed f x) l k = k
      later v (done i x) l k = (omega (arith, l, k.0), k.1)

      of_filled :
          (f : Filled)
          → ShrinksTo u f
          → ((v : Upload)
              → v.remaining < u.remaining
              → IsFound v (find_or_fill n fuel refusal part v))
          → IsFound u (fill_again refusal (find_or_fill n fuel refusal part) u f)
      of_filled no_more k go = h1
      of_filled cut_short k go = refl
      of_filled (more v) k go =
          later v (find_or_fill n fuel refusal part v) (omega (arith, k.0.0)) (go v k.1)

      of_search :
          (o : Option ℕ)
          → find_text part u.buffer ≡ o
          → (r : UploadResult ℕ) → IsFound u r
          → IsFound u (found_or o u r)
      of_search none e r k = k
      of_search (some i) e r k = (omega arith, e)

module _ (n : ℕ) (decode : Text → Text) (file_field d : Text) (h1 : 1 ≤ length d) where
  parse_part-IsEnded :
      (go : Form → Upload → UploadResult Form) (form : Form) (i : ℕ) (u : Upload)
      → i + 4 ≤ length u.buffer
      → ((f : Form) (v : Upload) → total v < total u → IsEnded (go f v))
      → IsEnded (parse_part n decode file_field d go form i u)
  unfolding parse_part
  parse_part-IsEnded go form i u h k =
      of_copy _ _ (copy_part-Within n d h1 _ (with_buffer u (drop (i + 4) u.buffer)))
        (λ s v l. k _ v (omega (arith, h, l, length-drop (i + 4) u.buffer)))
    where
      of_copy :
          (o : UploadResult Sink) (next : Sink → Upload → UploadResult Form)
          → Within (with_buffer u (drop (i + 4) u.buffer)) o
          → ((s : Sink) (v : Upload)
              → total v ≤ total (with_buffer u (drop (i + 4) u.buffer))
              → IsEnded (next s v))
          → IsEnded (and_then o next)
      of_copy (failed f v) next w k' = w
      of_copy (done s v) next w k' = k' s v w

  parse_parts-IsEnded :
      (fuel : ℕ) (form : Form) (u : Upload)
      → total u < fuel
      → IsEnded (parse_parts n decode file_field d fuel form u)
  unfolding parse_parts
  parse_parts-IsEnded zero form u h = absurd (omega arith)
  parse_parts-IsEnded (suc fuel) form u h =
      of_filled (fill_until n u.remaining 2 u) (fill_until-Later n u.remaining 2 u)
        (λ f v l. parse_parts-IsEnded fuel f v (omega (arith, h, l)))
    where
      of_found :
          (v : Upload) (o : UploadResult ℕ)
          → IsFound n unreadable_headers refl (txt "\r\n\r\n") v o
          → total v ≤ total u
          → ((f : Form) (x : Upload)
              → total x < total u
              → IsEnded (parse_parts n decode file_field d fuel f x))
          → IsEnded (
              and_then o
                (parse_part n decode file_field d (parse_parts n decode file_field d fuel) form))
      of_found v (failed f x) k l go = k
      of_found v (done i x) k l go =
          parse_part-IsEnded (parse_parts n decode file_field d fuel) form i x
            (find_text-has_prefix (txt "\r\n\r\n") (omega arith) x.buffer i k.1).1
            (λ f y m. go f y (omega (arith, m, l, k.0)))

      of_filled :
          (o : UploadResult Unit)
          → Later n u o
          → ((f : Form) (x : Upload)
              → total x < total u
              → IsEnded (parse_parts n decode file_field d fuel f x))
          → IsEnded (
              and_then o (λ _.
                part_or_end n decode file_field d (parse_parts n decode file_field d fuel) form))
      of_filled (failed f v) k go = k
      of_filled (done _ v) k go =
          if-holds IsEnded (has_prefix (txt "--") v.buffer) (done form v) _ (λ _. tt)
            (λ _.
              of_found v _
                (find_or_fill-IsFound n unreadable_headers refl (txt "\r\n\r\n") (suc v.remaining) v
                  (omega arith))
                (omega (arith, k.0)) go)

  pub parse-IsEnded : (u : Upload) → IsEnded (parse n decode file_field d u)
  unfolding parse
  parse-IsEnded u =
      of_found _ (find_or_fill-IsFound n unreadable_form refl d (suc u.remaining) u (omega arith))
    where
      of_found :
          (o : UploadResult ℕ)
          → IsFound n unreadable_form refl d u o
          → IsEnded (
              and_then o (λ i v.
                parse_parts n decode file_field d
                  (suc (length v.buffer + v.remaining))
                  (record { fields = []; filename = none; saved = none })
                  (with_buffer v (drop (i + length d) v.buffer))))
      of_found (failed f v) k = k
      of_found (done i v) k =
          parse_parts-IsEnded (suc (length v.buffer + v.remaining)) _ _
            (omega (arith, length-drop (i + length d) v.buffer))
