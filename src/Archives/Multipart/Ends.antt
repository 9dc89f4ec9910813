-- ===== src/Archives/Multipart/Ends.antt =====
-- The loop that copies a part ends, on any connection and for any sink.
use sdk_local_manager.Prelude.{
  ℕ, zero, suc, ◌+◌, ◌-◌, ◌≤◌, ◌<◌, min, ◌≡◌, refl, Bool, true, false, Option, none, some, [], ◌∷◌,
  length, length-append, length-drop, take, drop, ltb, if-holds, arith,
}
use sdk_local_manager.Prelude.Text.{Text}
use sdk_local_manager.Archives.Uploads.{Stream, read, length-take-le}
use sdk_local_manager.Archives.Multipart.{
  Upload, UploadResult, failed, done, Failure, out_of_rounds, Filled, no_more, cut_short, more,
  filled, fill, fill_from, next_fill, fill_until, Sink, write_to, find_text, is_closing, CopyRound,
  stopped, closed, goes_on, with_buffer, written_to, at_delimiter, after_fill, at_find, copy_round,
  next_round, copy_rounds, copy_part,
}
use sdk_local_manager.Archives.Multipart.Search.{find_text-has_prefix}
use sdk_local_manager.Archives.Multipart.Copied.{work_left}

-- A failure that the code raises.
abbrev pub is_refusal : Failure → Bool
is_refusal out_of_rounds = false
is_refusal _ = true

-- Bytes came from the connection to the buffer.
abbrev pub IsLater : Upload → Upload → Type 0
IsLater u v =
    (length v.buffer + v.remaining ≡ length u.buffer + u.remaining) × (v.remaining ≤ u.remaining)

-- The bytes in the buffer and those that remain.
abbrev pub total : Upload → ℕ
total u = length u.buffer + u.remaining

-- A read that gives bytes takes them from those that remain.
abbrev pub ShrinksTo : Upload → Filled → Type 0
ShrinksTo u no_more = Unit
ShrinksTo u cut_short = Unit
ShrinksTo u (more v) = IsLater u v × (v.remaining < u.remaining)

filled-ShrinksTo :
    (b : Text) (r : ℕ) (s rest : Stream) (piece : Text)
    → length piece ≤ r
    → ShrinksTo (record { buffer = b; remaining = r; stream = s }) (filled b r (piece, rest))
filled-ShrinksTo b r s rest [] h = tt
filled-ShrinksTo b r s rest (c ∷ t) h =
    ((omega (arith, h, length-append b (c ∷ t)), omega (arith, h)), omega (arith, h))

module _ (n : ℕ) where
  pub fill-ShrinksTo :
      (b : Text) (r : ℕ) (s : Stream)
      → ShrinksTo (record { buffer = b; remaining = r; stream = s }) (fill_from n b r s)
  unfolding fill_from read
  fill-ShrinksTo b zero s = tt
  fill-ShrinksTo b (suc r) [] = tt
  fill-ShrinksTo b (suc r) (piece ∷ s) =
      filled-ShrinksTo b (suc r) (piece ∷ s) _ (take (min n (suc r)) piece)
        (omega (arith, length-take-le (min n (suc r)) piece))

  abbrev pub Later : Upload → UploadResult Unit → Type 0
  Later u (failed f v) = is_refusal f ≡ true
  Later u (done _ v) = IsLater u v

  pub fill_until-Later : (fuel k : ℕ) (u : Upload) → Later u (fill_until n fuel k u)
  unfolding fill_until
  fill_until-Later zero k u = (refl, omega arith)
  fill_until-Later (suc fuel) k u =
      if-holds (Later u) (ltb (length u.buffer) k) _ (done tt u)
        (λ _.
          of_filled (fill n u) (fill-ShrinksTo u.buffer u.remaining u.stream)
            (λ v. fill_until-Later fuel k v))
        (λ _. (refl, omega arith))
    where
      later : (v : Upload) (o : UploadResult Unit) → IsLater u v → Later v o → Later u o
      later v (failed f x) h k = k
      later v (done _ x) h k = (omega (arith, h.0, k.0), omega (arith, h.1, k.1))

      of_filled :
          (f : Filled)
          → ShrinksTo u f
          → ((v : Upload) → Later v (fill_until n fuel k v))
          → Later u (next_fill (fill_until n fuel k) u f)
      of_filled no_more h go = (refl, omega arith)
      of_filled cut_short h go = refl
      of_filled (more v) h go = later v (fill_until n fuel k v) h.0 (go v)

  -- A round keeps or takes of what is in the buffer and to read, and has less to do when it goes on.
  abbrev Decreases : Upload → CopyRound → Type 0
  Decreases u (stopped f v) = is_refusal f ≡ true
  Decreases u (closed s v) = total v ≤ total u
  Decreases u (goes_on s v) = (work_left v < work_left u) × (total v ≤ total u)

  written_to-Decreases :
      (u v : Upload) (o : Option Sink) (next : Sink → CopyRound)
      → ((s : Sink) → Decreases u (next s))
      → Decreases u (written_to o v next)
  written_to-Decreases u v none next h = refl
  written_to-Decreases u v (some s) next h = h s

  module _ (d : Text) (h1 : 1 ≤ length d) (sink : Sink) where
    at_delimiter-Decreases :
        (u : Upload) (i : ℕ) (o : UploadResult Unit)
        → 1 ≤ length u.buffer
        → Later u o
        → Decreases u (at_delimiter d i sink o)
    at_delimiter-Decreases u i (failed f v) h k = k
    at_delimiter-Decreases u i (done _ v) h k =
        if-holds (Decreases u) (is_closing (take 2 (drop (i + length d) v.buffer))) _ _
          (λ _.
            written_to-Decreases u v (write_to sink (take i v.buffer)) _
              (λ s. omega (arith, k.0, length-drop (i + length d) v.buffer)))
          (λ _. written_to-Decreases u v (write_to sink (take (suc i) v.buffer)) _ (λ s. (
            omega (arith, h, k.0, k.1, length-drop (suc i) v.buffer),
            omega (arith, k.0, length-drop (suc i) v.buffer),
          )))

    after_fill-Decreases :
        (u v : Upload) (s : Sink) (f : Filled)
        → work_left v ≤ work_left u
        → total v ≤ total u
        → ShrinksTo v f
        → Decreases u (after_fill s v f)
    after_fill-Decreases u v s no_more h t k = refl
    after_fill-Decreases u v s cut_short h t k = refl
    after_fill-Decreases u v s (more x) h t k =
        (omega (arith, h, k.0.0, k.1), omega (arith, t, k.0.0))

    at_find-Decreases :
        (u : Upload) (o : Option ℕ) → find_text d u.buffer ≡ o → Decreases u (at_find n d sink u o)
    at_find-Decreases u (some i) e =
        at_delimiter-Decreases u i _ (omega (arith, h1, (find_text-has_prefix d h1 u.buffer i e).1))
          (fill_until-Later u.remaining (i + length d + 2) u)
    at_find-Decreases u none e =
        let ready = length u.buffer - suc (length d) in
        let rest = with_buffer u (drop ready u.buffer) in
        written_to-Decreases u u (write_to sink (take ready u.buffer)) _ (λ s.
          after_fill-Decreases u rest s (fill n rest) (omega (arith, length-drop ready u.buffer))
            (omega (arith, length-drop ready u.buffer))
            (fill-ShrinksTo rest.buffer rest.remaining rest.stream))

-- An outcome that the code has, with no more bytes than before.
abbrev pub Within : {A : Type 0} → Upload → UploadResult A → Type 0
Within u (failed f v) = is_refusal f ≡ true
Within u (done a v) = total v ≤ total u

-- The rounds of the loop, with no bound on their number, end with this outcome.
pub data Run (n : ℕ) (d : Text) : Sink → Upload → UploadResult Sink → Type 0 where
  run_stopped :
      (s : Sink) (u : Upload) (f : Failure) (v : Upload)
      → copy_round n d s u ≡ stopped f v
      → Run n d s u (failed f v)
  run_closed :
      (s : Sink) (u : Upload) (t : Sink) (v : Upload)
      → copy_round n d s u ≡ closed t v
      → Run n d s u (done t v)
  run_on :
      (s : Sink) (u : Upload) (t : Sink) (v : Upload) (o : UploadResult Sink)
      → copy_round n d s u ≡ goes_on t v
      → Run n d t v o
      → Run n d s u o

module _ (n : ℕ) (d : Text) (h1 : 1 ≤ length d) where
  copy_rounds-Run :
      (fuel : ℕ) (sink : Sink) (u : Upload)
      → work_left u < fuel
      → Run n d sink u (copy_rounds n fuel d sink u)
  unfolding copy_rounds
  copy_rounds-Run zero sink u h = absurd (omega arith)
  copy_rounds-Run (suc fuel) sink u h =
      of_round (copy_round n d sink u) refl (copy_round-Decreases sink u)
        (λ s v l. copy_rounds-Run fuel s v (omega (arith, h, l)))
    where
      copy_round-Decreases : (s : Sink) (v : Upload) → Decreases n v (copy_round n d s v)
      copy_round-Decreases s v =
          unfold copy_round in at_find-Decreases n d h1 s v (find_text d v.buffer) refl

      of_round :
          (r : CopyRound)
          → copy_round n d sink u ≡ r
          → Decreases n u r
          → ((s : Sink) (v : Upload)
              → work_left v < work_left u
              → Run n d s v (copy_rounds n fuel d s v))
          → Run n d sink u (next_round (copy_rounds n fuel d) r)
      of_round (stopped f v) e l go = run_stopped sink u f v e
      of_round (closed s v) e l go = run_closed sink u s v e
      of_round (goes_on s v) e l go = run_on sink u s v _ e (go s v l.0)

  -- For a delimiter that is not empty, on any connection, for any sink and any size of the reads: the
  -- loop, with no bound on its rounds, ends, and what it ends with is the outcome of `copy_part`.
  pub copy_part-Run : (sink : Sink) (u : Upload) → Run n d sink u (copy_part n d sink u)
  unfolding copy_part
  copy_part-Run sink u =
      copy_rounds-Run (suc (length u.buffer + (u.remaining + u.remaining))) sink u (omega arith)

  copy_rounds-Within :
      (fuel : ℕ) (sink : Sink) (u : Upload)
      → work_left u < fuel
      → Within u (copy_rounds n fuel d sink u)
  unfolding copy_rounds copy_round
  copy_rounds-Within zero sink u h = absurd (omega arith)
  copy_rounds-Within (suc fuel) sink u h =
      of_round (copy_round n d sink u) (at_find-Decreases n d h1 sink u (find_text d u.buffer) refl)
        (λ s v l. copy_rounds-Within fuel s v (omega (arith, h, l)))
    where
      within : (v : Upload) (o : UploadResult Sink) → total v ≤ total u → Within v o → Within u o
      within v (failed f x) h k = k
      within v (done s x) h k = omega (arith, h, k)

      of_round :
          (r : CopyRound)
          → Decreases n u r
          → ((s : Sink) (v : Upload)
              → work_left v < work_left u
              → Within v (copy_rounds n fuel d s v))
          → Within u (next_round (copy_rounds n fuel d) r)
      of_round (stopped f v) l go = l
      of_round (closed s v) l go = l
      of_round (goes_on s v) l go = within v (copy_rounds n fuel d s v) l.1 (go s v l.0)

  pub copy_part-Within : (sink : Sink) (u : Upload) → Within u (copy_part n d sink u)
  unfolding copy_part
  copy_part-Within sink u =
      copy_rounds-Within (suc (length u.buffer + (u.remaining + u.remaining))) sink u (omega arith)
