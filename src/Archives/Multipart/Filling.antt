-- ===== src/Archives/Multipart/Filling.antt =====
-- What a read of the connection does to the bytes that are still to be read.
use mathlib.Core.Path.{subst}
use mathlib.Core.List.{append_assoc, append-nil}
use sdk_local_manager.Prelude.{
  ℕ, zero, suc, ◌+◌, ◌-◌, ◌≤◌, min, ◌≡◌, refl, sym, ap, ◌∙◌, [], ◌∷◌, ◌++◌, length, length-append,
  take, drop, ltb, All, if-holds, ◌⊎◌, inl, inr, arith,
}
use sdk_local_manager.Prelude.Text.{Text}
use sdk_local_manager.Archives.Uploads.{
  Stream, read, left_of, bytes, IsPiece, take-bytes, drop-IsPiece, length-take-le,
}
use sdk_local_manager.Archives.Multipart.{
  Upload, Filled, no_more, cut_short, more, filled, fill, fill_from, fill_until, next_fill,
  UploadResult, done,
}

-- The bytes of the body that the code has not given to a part yet.
abbrev pub unread : Upload → Text
unread u = u.buffer ++ take u.remaining (bytes u.stream)

-- The connection holds all that the header announced.
abbrev pub IsComplete : Upload → Type 0
IsComplete u = All IsPiece u.stream × (u.remaining ≤ length (bytes u.stream))

-- A piece was added to the buffer of `u`.
pub record Grown (u u' : Upload) : Type 0 where
  pub piece : Text
  pub is_piece : IsPiece piece
  pub buffer_grown : u'.buffer ≡ u.buffer ++ piece
  pub remaining_grown : u'.remaining + length piece ≡ u.remaining
  pub unread_grown : unread u' ≡ unread u
  pub complete_grown : IsComplete u'

abbrev pub IsFilling : Upload → Filled → Type 0
IsFilling u no_more = u.remaining ≡ 0
IsFilling u cut_short = ⊥
IsFilling u (more u') = Grown u u'

take-append : (n : ℕ) (p q : Text) → length p ≤ n → take n (p ++ q) ≡ p ++ take (n - length p) q
take-append n [] q h = ap (λ m. take m q) (let e : n ≡ n - 0 = omega arith in e)
take-append zero (c ∷ p) q h = absurd (omega arith)
take-append (suc n) (c ∷ p) q h =
    ap (◌∷◌ c) (take-append n p q (omega arith))
    ∙ ap (λ m. c ∷ p ++ take m q) (let e : n - length p ≡ suc n - suc (length p) = omega arith in e)

module _ (b : Text) (r : ℕ) where
  read-Grown :
      (k c : ℕ) (t : Text) (s : Stream)
      → k ≤ r
      → IsComplete (record { buffer = b; remaining = suc r; stream = (c ∷ t) ∷ s })
      → IsFilling
          (record { buffer = b; remaining = suc r; stream = (c ∷ t) ∷ s })
          (filled b (suc r) (read (suc k) ((c ∷ t) ∷ s)))
  unfolding read
  read-Grown k c t s h w =
      let piece = c ∷ take k t in
      let rest = bytes (left_of (drop k t) s) in
      let short : length piece ≤ suc r = omega (arith, length-take-le k t) in
      let whole : piece ++ rest ≡ (c ∷ t) ++ bytes s = take-bytes (suc k) (c ∷ t) s in
      record {
        piece = piece;
        is_piece = omega arith;
        buffer_grown = refl;
        remaining_grown = omega (arith, short);
        unread_grown =
            append_assoc b piece (take (suc r - length piece) rest)
            ∙ ap (◌++◌ b) (sym (take-append (suc r) piece rest short) ∙ ap (take (suc r)) whole);
        complete_grown = (
          drop-IsPiece k t s w.0.1,
          (let e : suc r - length piece ≤ length rest =
                omega (arith, w.1, short, length-append piece rest, ap length whole) in
              e),
        );
      }

module _ (n : ℕ) where
  -- A read of a connection that holds all of the body gives bytes as long as some remain.
  pub fill-IsFilling :
      (b : Text) (r : ℕ) (s : Stream)
      → IsComplete (record { buffer = b; remaining = r; stream = s })
      → IsFilling (record { buffer = b; remaining = r; stream = s }) (fill_from (suc n) b r s)
  unfolding fill_from
  fill-IsFilling b zero s w = refl
  fill-IsFilling b (suc r) [] w = absurd (omega (arith, w.1))
  fill-IsFilling b (suc r) ([] ∷ s) w = absurd (omega (arith, w.0.0))
  fill-IsFilling b (suc r) ((c ∷ t) ∷ s) w =
      subst
        (λ m.
          IsFilling (record { buffer = b; remaining = suc r; stream = (c ∷ t) ∷ s })
            (filled b (suc r) (read m ((c ∷ t) ∷ s))))
        (let e : suc (min n r) ≡ min (suc n) (suc r) = omega arith in e)
        (read-Grown b r (min n r) c t s (omega arith) w)

-- Pieces were added to the buffer of `u` until it holds `n` bytes or the body ends.
pub record Ready (n : ℕ) (u u' : Upload) : Type 0 where
  pub added : Text
  pub buffer_ready : u'.buffer ≡ u.buffer ++ added
  pub size_ready : length u'.buffer + u'.remaining ≡ length u.buffer + u.remaining
  pub unread_ready : unread u' ≡ unread u
  pub complete_ready : IsComplete u'
  pub is_ready : (n ≤ length u'.buffer) ⊎ (u'.remaining ≡ 0)

abbrev IsReady : ℕ → Upload → UploadResult Unit → Type 0
IsReady n u r = (u' : Upload) × (r ≡ done tt u') × Ready n u u'

Ready-refl :
    (n : ℕ) (u : Upload)
    → IsComplete u
    → (n ≤ length u.buffer) ⊎ (u.remaining ≡ 0)
    → IsReady n u (done tt u)
Ready-refl n u w h = (
  u,
  refl,
  record {
    added = [];
    buffer_ready = sym (append-nil u.buffer);
    size_ready = refl;
    unread_ready = refl;
    complete_ready = w;
    is_ready = h;
  },
)

Ready-Grown :
    (n : ℕ) (u v : Upload) (r : UploadResult Unit) → Grown u v → IsReady n v r → IsReady n u r
Ready-Grown n u v r g (u', e, p) = (
  u',
  e,
  record {
    added = g.piece ++ p.added;
    buffer_ready =
        p.buffer_ready
        ∙ ap (λ b. b ++ p.added) g.buffer_grown
        ∙ append_assoc u.buffer g.piece p.added;
    size_ready =
        (let k : length u'.buffer + u'.remaining ≡ length u.buffer + u.remaining = omega (
          arith,
          p.size_ready,
          g.remaining_grown,
          ap length g.buffer_grown,
          length-append u.buffer g.piece,
        ) in
          k);
    unread_ready = p.unread_ready ∙ g.unread_grown;
    complete_ready = p.complete_ready;
    is_ready = p.is_ready;
  },
)

module _ (m : ℕ) where
  pub fill_until-IsReady :
      (fuel n : ℕ) (u : Upload)
      → IsComplete u
      → u.remaining ≤ fuel
      → IsReady n u (fill_until (suc m) fuel n u)
  unfolding fill_until
  fill_until-IsReady zero n u w h = Ready-refl n u w (inr (omega arith))
  fill_until-IsReady (suc fuel) n u w h =
      if-holds (IsReady n u) (ltb (length u.buffer) n) _ (done tt u)
        (λ _. of_filling (fill (suc m) u) (fill-IsFilling m u.buffer u.remaining u.stream w) (λ v g.
          fill_until-IsReady fuel n v g.complete_grown
            (omega (arith, g.remaining_grown, g.is_piece))))
        (λ e. Ready-refl n u w (inl (ground (arith, e))))
    where
      of_filling :
          (f : Filled)
          → IsFilling u f
          → ((v : Upload) → Grown u v → IsReady n v (fill_until (suc m) fuel n v))
          → IsReady n u (next_fill (fill_until (suc m) fuel n) u f)
      of_filling no_more g go = Ready-refl n u w (inr g)
      of_filling cut_short g go = absurd g
      of_filling (more v) g go = Ready-Grown n u v _ g (go v g)
