-- ===== src/Archives/Multipart/Copied.antt =====
-- The bytes of a part that is read piece by piece, and those that the whole body has for it.
use mathlib.Core.Path.{subst}
use mathlib.Core.List.{append_assoc, append-nil}
use sdk_local_manager.Prelude.{
  ℕ, zero, suc, ◌+◌, ◌-◌, ◌≤◌, ◌<◌, ◌≡◌, refl, sym, ap, ◌∙◌, Option, none, some, [], ◌++◌, length,
  length-append, length-drop, take, drop, if-holds, ◌⊎◌, inl, inr, arith,
}
use sdk_local_manager.Prelude.Text.{Text}
use sdk_local_manager.Archives.Uploads.{bytes}
use sdk_local_manager.Archives.Multipart.{
  Upload, UploadResult, failed, done, Failure, truncated, Filled, no_more, cut_short, more, fill,
  Sink, file, write_to, find_text, is_closing, CopyRound, stopped, closed, goes_on, with_buffer,
  at_delimiter, after_fill, without_delimiter, at_find, copy_round, next_round, copy_rounds,
  copy_part,
}
use sdk_local_manager.Archives.Multipart.Filling.{
  unread, IsComplete, IsFilling, fill-IsFilling, Ready, fill_until-IsReady,
}
use sdk_local_manager.Archives.Multipart.Delimiters.{
  delimiter_fits, closes-suffix, split-at-closed, split-at-goes_on,
}
use sdk_local_manager.Archives.Multipart.Search.{
  onto, split_part, split-find-none, split_part-find-none, find_text-append,
}

-- What a round can still read or write.
abbrev pub work_left : Upload → ℕ
work_left u = length u.buffer + (u.remaining + u.remaining)

module _ (d w : Text) where
  -- What a round that writes to the file `w` did, by the bytes that were unread before it.
  abbrev IsRound : Upload → CopyRound → Type 0
  IsRound u (stopped f u') = (f ≡ truncated) × (split_part d (unread u) ≡ none)
  IsRound u (closed s u') =
      (x : Text) × (s ≡ file (w ++ x))
      × (split_part d (unread u) ≡ some (x, unread u'))
      × IsComplete u'
  IsRound u (goes_on s u') =
      (x : Text) × (s ≡ file (w ++ x))
      × (split_part d (unread u) ≡ onto x (split_part d (unread u')))
      × IsComplete u'
      × (work_left u' < work_left u)

module _ (m : ℕ) (d : Text) (h1 : 1 ≤ length d) (w : Text) where
  at_delimiter-IsRound :
      (u v : Upload) (i : ℕ)
      → find_text d u.buffer ≡ some i
      → Ready (i + length d + 2) u v
      → IsRound d w u (at_delimiter d i (file w) (done tt v))
  unfolding write_to
  at_delimiter-IsRound u v i h p =
      let x = take v.remaining (bytes v.stream) in
      let found : find_text d v.buffer ≡ some i =
        ap (find_text d) p.buffer_ready ∙ find_text-append d h1 u.buffer p.added i h in
      let same = closes-suffix d h1 v.buffer x i found (no_rest p.is_ready) in
      if-holds (IsRound d w u) (is_closing (take 2 (drop (i + length d) v.buffer))) _ _
        (λ e. (
          take i v.buffer,
          refl,
          ap (split_part d) (sym p.unread_ready)
              ∙ split-at-closed d h1 v.buffer x i found (same ∙ e),
          p.complete_ready,
        ))
        (λ e. (
          take (suc i) v.buffer,
          refl,
          ap (split_part d) (sym p.unread_ready)
              ∙ split-at-goes_on d h1 v.buffer x i found (same ∙ e),
          p.complete_ready,
          omega (
            arith,
            h1,
            delimiter_fits d h1 v.buffer x i found,
            length-drop (suc i) v.buffer,
            p.size_ready,
            ap length p.buffer_ready,
            length-append u.buffer p.added,
          ),
        ))
    where
      no_rest :
          (i + length d + 2 ≤ length v.buffer) ⊎ (v.remaining ≡ 0)
          → (i + length d + 2 ≤ length v.buffer) ⊎ (take v.remaining (bytes v.stream) ≡ [])
      no_rest (inl e) = inl e
      no_rest (inr e) = inr (ap (λ n. take n (bytes v.stream)) e)

  without_delimiter-IsRound :
      (u : Upload)
      → IsComplete u
      → find_text d u.buffer ≡ none
      → IsRound d w u (without_delimiter (suc m) (suc (length d)) (file w) u)
  unfolding write_to
  without_delimiter-IsRound u c h =
      of_filling (fill (suc m) rest) (fill-IsFilling m rest.buffer rest.remaining rest.stream c)
    where
      ready : ℕ
      ready = length u.buffer - suc (length d)

      rest : Upload
      rest = with_buffer u (drop ready u.buffer)

      of_filling :
          (f : Filled)
          → IsFilling rest f
          → IsRound d w u (after_fill (file (w ++ take ready u.buffer)) rest f)
      of_filling no_more g = (
        refl,
        ap (λ n. split_part d (u.buffer ++ take n (bytes u.stream))) g
            ∙ ap (split_part d) (append-nil u.buffer)
            ∙ split_part-find-none d u.buffer h,
      )
      of_filling cut_short g = absurd g
      of_filling (more v) g = (
        take ready u.buffer,
        refl,
        split-find-none d ready u.buffer (take u.remaining (bytes u.stream)) h (omega arith)
            ∙ ap (λ t. onto (take ready u.buffer) (split_part d t)) (sym g.unread_grown),
        g.complete_grown,
        omega (
          arith,
          g.remaining_grown,
          g.is_piece,
          ap length g.buffer_grown,
          length-append rest.buffer g.piece,
          length-drop ready u.buffer,
        ),
      )

  at_find-IsRound :
      (u : Upload) (o : Option ℕ)
      → IsComplete u
      → find_text d u.buffer ≡ o
      → IsRound d w u (at_find (suc m) d (file w) u o)
  at_find-IsRound u none c h = without_delimiter-IsRound u c h
  at_find-IsRound u (some i) c h =
      let (v, e, p) = fill_until-IsReady m u.remaining (i + length d + 2) u c (omega arith) in
      subst (λ r. IsRound d w u (at_delimiter d i (file w) r)) (sym e)
        (at_delimiter-IsRound u v i h p)

-- The part that a reading gives, with the bytes after it.
abbrev pub copied : UploadResult Sink → Failure ⊎ (Sink × Text)
copied (failed f u) = inl f
copied (done s u) = inr (s, unread u)

-- The part of a body that is there as a whole.
abbrev pub at_once : Text → Option (Text × Text) → Failure ⊎ (Sink × Text)
at_once w none = inl truncated
at_once w (some (part, rest)) = inr (file (w ++ part), rest)

at_once-onto : (w x : Text) (r : Option (Text × Text)) → at_once (w ++ x) r ≡ at_once w (onto x r)
at_once-onto w x none = refl
at_once-onto w x (some (part, rest)) = ap (λ t. inr (file t, rest)) (append_assoc w x part)

module _ (m : ℕ) (d : Text) (h1 : 1 ≤ length d) where
  copy_rounds-at_once :
      (fuel : ℕ) (w : Text) (u : Upload)
      → IsComplete u
      → work_left u < fuel
      → copied (copy_rounds (suc m) fuel d (file w) u) ≡ at_once w (split_part d (unread u))
  unfolding copy_rounds copy_round
  copy_rounds-at_once zero w u c h = absurd (omega arith)
  copy_rounds-at_once (suc fuel) w u c h =
      of_round (copy_round (suc m) d (file w) u)
        (at_find-IsRound m d h1 w u (find_text d u.buffer) c refl)
        (λ x v k l. copy_rounds-at_once fuel (w ++ x) v k (omega (arith, h, l)))
    where
      of_round :
          (r : CopyRound)
          → IsRound d w u r
          → ((x : Text) (v : Upload)
              → IsComplete v
              → work_left v < work_left u
              → copied (copy_rounds (suc m) fuel d (file (w ++ x)) v)
                ≡ at_once (w ++ x) (split_part d (unread v)))
          → copied (next_round (copy_rounds (suc m) fuel d) r) ≡ at_once w (split_part d (unread u))
      of_round (stopped f v) (e, g) go = ap inl e ∙ sym (ap (at_once w) g)
      of_round (closed s v) (x, e, g, k) go = ap (λ t. inr (t, unread v)) e ∙ sym (ap (at_once w) g)
      of_round (goes_on s v) (x, e, g, k, l) go =
          ap (λ t. copied (copy_rounds (suc m) fuel d t v)) e
          ∙ go x v k l
          ∙ at_once-onto w x (split_part d (unread v))
          ∙ sym (ap (at_once w) g)

  -- For a delimiter that is not empty, reads of one byte at least and a connection that holds all of
  -- the body, in whatever pieces: what is added to the file is what stands in the body before the
  -- first delimiter that a line end or `--` follows, the bytes after that delimiter are those that
  -- stay to be read, and a body without one is refused as truncated.
  pub copy_part-at_once :
      (w : Text) (u : Upload)
      → IsComplete u
      → copied (copy_part (suc m) d (file w) u) ≡ at_once w (split_part d (unread u))
  unfolding copy_part
  copy_part-at_once w u c =
      copy_rounds-at_once (suc (length u.buffer + (u.remaining + u.remaining))) w u c (omega arith)
