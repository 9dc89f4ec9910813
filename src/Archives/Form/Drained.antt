-- ===== src/Archives/Form/Drained.antt =====
-- What `save_multipart_upload` leaves on the connection.
use mathlib.Core.Path.{subst}
use sdk_local_manager.Prelude.{
  ℕ, zero, suc, ◌≤◌, ◌<◌, ◌≡◌, refl, sym, true, some, [], ◌∷◌, ◌++◌, ◌⊎◌, inl, inr, arith,
}
use sdk_local_manager.Prelude.Text.{Text, txt}
use sdk_local_manager.Archives.Uploads.{Stream}
use sdk_local_manager.Archives.Multipart.{
  Upload, UploadResult, failed, done, Failure, Filled, no_more, cut_short, more, filled, fill,
  fill_from, next_fill, with_buffer,
}
use sdk_local_manager.Archives.Multipart.Ends.{is_refusal, ShrinksTo, fill-ShrinksTo}
use sdk_local_manager.Archives.Form.{
  Form, and_then, drain, refused_with, after_boundary, drained, multipart_boundary,
  save_multipart_upload,
}
use sdk_local_manager.Archives.Form.Ends.{IsEnded, parse-IsEnded}

module _ (n : ℕ) where
  -- All that was announced is read, or the connection gives no more bytes.
  abbrev pub IsRead : Upload → Type 0
  IsRead u = (u.remaining ≡ 0) ⊎ (fill n (with_buffer u []) ≡ cut_short)

  abbrev IsDrain : UploadResult Unit → Type 0
  IsDrain (failed f u) = IsRead u
  IsDrain (done _ u) = IsRead u

  filled-remaining : (r : ℕ) (p : Text × Stream) → filled [] r p ≡ no_more → r ≡ 0
  filled-remaining r ([], s) h = absurd (cc h)
  filled-remaining r (c ∷ t, s) h = absurd (cc h)

  no_more-remaining : (r : ℕ) (s : Stream) → fill_from n [] r s ≡ no_more → r ≡ 0
  unfolding fill_from
  no_more-remaining zero s h = refl
  no_more-remaining (suc r) s h = filled-remaining (suc r) _ h

  drain-IsDrain : (fuel : ℕ) (u : Upload) → u.remaining ≤ fuel → IsDrain (drain n fuel u)
  unfolding drain
  drain-IsDrain zero u h = inl (omega arith)
  drain-IsDrain (suc fuel) u h =
      of_filled (fill n (with_buffer u [])) refl (fill-ShrinksTo n [] u.remaining u.stream)
        (λ v l. drain-IsDrain fuel v (omega (arith, h, l)))
    where
      of_filled :
          (f : Filled)
          → fill n (with_buffer u []) ≡ f
          → ShrinksTo (with_buffer u []) f
          → ((v : Upload) → v.remaining < u.remaining → IsDrain (drain n fuel v))
          → IsDrain (next_fill (drain n fuel) u f)
      of_filled no_more e k go = inl (no_more-remaining u.remaining u.stream e)
      of_filled cut_short e k go = inr e
      of_filled (more v) e k go = go v k.1

-- An outcome after which the connection holds nothing more of the body.
abbrev pub IsDrained : ℕ → UploadResult Form → Type 0
IsDrained n (failed f u) = IsRead n u
IsDrained n (done form u) = IsRead n u

module _ (n : ℕ) where
  refused-IsDrained :
      (f : Failure) (o : UploadResult Unit)
      → IsDrain n o
      → is_refusal f ≡ true
      → IsDrained n (refused_with f o) × IsEnded (refused_with {A = Form} f o)
  refused-IsDrained f (failed g u) h k = (h, k)
  refused-IsDrained f (done _ u) h k = (h, k)

  drain-IsEnded : (fuel : ℕ) (u : Upload) → IsEnded (drain n fuel u)
  unfolding drain
  drain-IsEnded zero u = tt
  drain-IsEnded (suc fuel) u = of_filled (fill n (with_buffer u [])) (λ v. drain-IsEnded fuel v)
    where
      of_filled :
          (f : Filled)
          → ((v : Upload) → IsEnded (drain n fuel v))
          → IsEnded (next_fill (drain n fuel) u f)
      of_filled no_more go = tt
      of_filled cut_short go = refl
      of_filled (more v) go = go v

  done-IsDrained :
      (form : Form) (o : UploadResult Unit)
      → IsDrain n o
      → IsEnded o
      → IsDrained n (and_then o (λ _. done form)) × IsEnded (and_then o (λ _. done form))
  done-IsDrained form (failed g u) h k = (h, k)
  done-IsDrained form (done _ u) h k = (h, tt)

  drained-IsDrained :
      (o : UploadResult Form) → IsEnded o → IsDrained n (drained n o) × IsEnded (drained n o)
  unfolding drained
  drained-IsDrained (failed f u) h =
      refused-IsDrained f (drain n u.remaining u) (drain-IsDrain n u.remaining u (omega arith)) h
  drained-IsDrained (done form u) h =
      done-IsDrained form (drain n u.remaining u) (drain-IsDrain n u.remaining u (omega arith))
        (drain-IsEnded u.remaining u)

module _ (encode decode : Text → Text) (file_field : Text) where
  -- For a form whose type names a boundary, on any connection and with reads of any size: the
  -- reading ends, with a form or with a refusal of the code, and after it nothing of the body is
  -- left to be read, or the connection gives no more bytes.
  pub save_multipart_upload-IsDrained :
      (stream : Stream) (content_length n : ℕ) (content_type boundary : Text)
      → multipart_boundary encode content_type ≡ some boundary
      → IsDrained n
          (save_multipart_upload encode decode stream content_length content_type file_field n)
        × IsEnded
            (save_multipart_upload encode decode stream content_length content_type file_field n)
  unfolding save_multipart_upload
  save_multipart_upload-IsDrained stream content_length n content_type boundary h =
      subst
        (λ b.
          IsDrained n (after_boundary encode decode file_field stream content_length n b)
          × IsEnded (after_boundary encode decode file_field stream content_length n b))
        (sym h)
        (drained-IsDrained n _
          (parse-IsEnded n decode file_field (txt "\r\n--" ++ boundary) (omega arith) _))
