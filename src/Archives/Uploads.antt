-- ===== src/Archives/Uploads.antt =====
-- archives.py, `save_request_body_to_file`: a request's body is written as it arrives.
--
-- A stream is the pieces in which the bytes arrive: a read gives what the first piece still holds,
-- at most what is asked. Its end is that of the list.
use sdk_local_manager.Prelude.{
  ℕ, zero, suc, ◌-◌, ◌≤◌, min, ◌≡◌, refl, ap, ◌∙◌, Option, none, some, List, [], ◌∷◌, ◌++◌, length,
  take, drop, arith, if◌then◌else◌, leb, All, length-append, take-append-drop,
}
use sdk_local_manager.Prelude.Text.{Text}

abbrev pub Stream : Type 0
Stream = List Text

-- What is left of a piece of which some was read.
abbrev pub left_of : Text → Stream → Stream
left_of [] s = s
left_of (c ∷ t) s = (c ∷ t) ∷ s

-- `stream.read(n)`: the bytes given, and the stream after them
unfoldable pub read : ℕ → Stream → Text × Stream
read n [] = ([], [])
read n (piece ∷ s) = (take n piece, left_of (drop n piece) s)

-- `none`: the upload was interrupted, and the code raises.
abbrev pub prepend : Text → Option Text → Option Text
prepend chunk none = none
prepend chunk (some t) = some (chunk ++ t)

-- The bytes written to the file. Each round of the loop takes one byte at least, so that as many
-- rounds as bytes are enough.
unfoldable pub save_rounds : ℕ → ℕ → ℕ → Stream → Option Text
save_rounds zero chunk_size remaining s = some []
save_rounds (suc fuel) chunk_size zero s = some []
save_rounds (suc fuel) chunk_size (suc r) s =
    let (chunk, rest) = read (min chunk_size (suc r)) s in
    elim chunk as (λ _. Option Text) [
      | [] ↦ none
      | c ∷ t ↦ prepend (c ∷ t) (save_rounds fuel chunk_size (suc r - length (c ∷ t)) rest)
    ]

unfoldable pub save_request_body_to_file : Stream → ℕ → ℕ → Option Text
save_request_body_to_file stream content_length chunk_size =
    save_rounds content_length chunk_size content_length stream

-- All that the stream still holds.
abbrev pub bytes : Stream → Text
bytes [] = []
bytes (piece ∷ s) = piece ++ bytes s

abbrev pub IsPiece : Text → Type 0
IsPiece piece = 1 ≤ length piece

-- The whole of the body at once.
abbrev pub save_at_once : Text → ℕ → Option Text
save_at_once body content_length =
    if leb content_length (length body) then some (take content_length body) else none

bytes-left_of : (p : Text) (s : Stream) → bytes (left_of p s) ≡ p ++ bytes s
bytes-left_of [] s = refl
bytes-left_of (c ∷ t) s = refl

left_of-IsPiece : (p : Text) (s : Stream) → All IsPiece s → All IsPiece (left_of p s)
left_of-IsPiece [] s h = h
left_of-IsPiece (c ∷ t) s h = (omega arith, h)

prepend-at_once :
    (n : ℕ) (p q : Text)
    → length p ≤ n
    → prepend p (save_at_once q (n - length p)) ≡ save_at_once (p ++ q) n
prepend-at_once n [] q h = ground arith
prepend-at_once zero (c ∷ p) q h = absurd (omega arith)
prepend-at_once (suc n) (c ∷ p) q h =
    ground (arith, prepend-at_once n p q (omega arith), length-append p q)

pub length-take-le : (n : ℕ) (t : Text) → length (take n t) ≤ n
length-take-le zero t = omega arith
length-take-le (suc n) [] = omega arith
length-take-le (suc n) (c ∷ t) = omega (arith, length-take-le n t)

append_assoc : (a b c : Text) → a ++ (b ++ c) ≡ (a ++ b) ++ c
append_assoc [] b c = refl
append_assoc (x ∷ a) b c = ap (◌∷◌ x) (append_assoc a b c)

-- A piece of which one read takes what it asks.
pub take-bytes :
    (k : ℕ) (p : Text) (s : Stream) → take k p ++ bytes (left_of (drop k p) s) ≡ p ++ bytes s
take-bytes k p s =
    ap (◌++◌ (take k p)) (bytes-left_of (drop k p) s)
    ∙ append_assoc (take k p) (drop k p) (bytes s)
    ∙ ap (λ u. u ++ bytes s) (take-append-drop k p)

pub drop-IsPiece :
    (k : ℕ) (p : Text) (s : Stream) → All IsPiece s → All IsPiece (left_of (drop k p) s)
drop-IsPiece k p s h = left_of-IsPiece (drop k p) s h

save_rounds-at_once :
    (fuel chunk_size remaining : ℕ) (s : Stream)
    → 1 ≤ chunk_size
    → All IsPiece s
    → remaining ≤ fuel
    → save_rounds fuel chunk_size remaining s ≡ save_at_once (bytes s) remaining
unfolding save_rounds read
save_rounds-at_once zero c zero s hc hp h = ground arith
save_rounds-at_once zero c (suc r) s hc hp h = absurd (omega arith)
save_rounds-at_once (suc fuel) c zero s hc hp h = ground arith
save_rounds-at_once (suc fuel) c (suc r) [] hc hp h = ground arith
save_rounds-at_once (suc fuel) zero (suc r) s hc hp h = absurd (omega arith)
save_rounds-at_once (suc fuel) (suc n) (suc r) ([] ∷ s) hc hp h = absurd (omega (arith, hp.0))
save_rounds-at_once (suc fuel) (suc n) (suc r) ((c ∷ t) ∷ s) hc hp h =
    ap
      (λ m. elim (take m (c ∷ t)) as (λ _. Option Text) [
        | [] ↦ none
        | d ∷ u ↦
            prepend (d ∷ u)
              (save_rounds fuel (suc n) (suc r - length (d ∷ u)) (left_of (drop m (c ∷ t)) s))
      ])
      (let e : min (suc n) (suc r) ≡ suc (min n r) = omega arith in e)
    ∙ ap (prepend (c ∷ take (min n r) t)) (
        save_rounds-at_once fuel (suc n) (suc r - length (c ∷ take (min n r) t))
          (left_of (drop (min n r) t) s) hc (drop-IsPiece (min n r) t s hp.1) (omega arith))
    ∙ prepend-at_once (suc r) (c ∷ take (min n r) t) (bytes (left_of (drop (min n r) t) s))
        (omega (arith, length-take-le (min n r) t))
    ∙ ap (λ u. save_at_once (c ∷ u) (suc r)) (take-bytes (min n r) t s)

-- Whatever the pieces in which the body arrives and the size of the reads, the file is the announced
-- number of bytes of the stream, when it holds as many, and the upload fails when it does not.
pub save_request_body_to_file-at_once :
    (stream : Stream) (content_length chunk_size : ℕ)
    → 1 ≤ chunk_size
    → All IsPiece stream
    → save_request_body_to_file stream content_length chunk_size
      ≡ save_at_once (bytes stream) content_length
unfolding save_request_body_to_file
save_request_body_to_file-at_once stream n chunk_size hc hp =
    save_rounds-at_once n chunk_size n stream hc hp (omega arith)
