-- ===== src/JobQueue/Window.antt =====
-- The output that is kept of an action, and the part of it that the interface asks for.
use sdk_local_manager.Prelude.{
  ℕ, zero, suc, ◌+◌, ◌-◌, ◌*◌, ◌≤◌, ◌≡◌, sym, ap, ◌∙◌, true, some, ◌++◌, arith, length,
  length-append, length-drop, drop, drop-drop, drop-append_le, take, take-append-drop, Bool-cases,
  inl, inr, ltb,
}
use sdk_local_manager.Prelude.Text.{Text}
use sdk_local_manager.JobQueue.{Job, job_output_limit}
use sdk_local_manager.JobQueue.Output.{append_output, trim_output}
use sdk_local_manager.JobQueue.Snapshot.{visible_output, goes_on, rest_payload, job_output_payload}

-- Of all that the action wrote, the job counts every character and keeps an end.
pub record IsEndOf (written : Text) (j : Job) : Type 0 where
  pub counted : j.output_total ≡ length written
  pub kept : length j.output ≤ j.output_total
  pub output : j.output ≡ drop (j.output_total - length j.output) written

-- The end of a text that is an end.
drop_of_end :
    (k n : ℕ) (t w : Text) → n + length t ≡ length w → t ≡ drop n w → drop k t ≡ drop (n + k) w
drop_of_end k n t w e h = ap (drop k) h ∙ drop-drop k n w

length_trim_bounds : (t : Text) → length (trim_output t) ≤ length t
unfolding trim_output
length_trim_bounds t = ground (arith, length-drop (length t - job_output_limit) t)

trim_output-drop : (t : Text) → trim_output t ≡ drop (length t - length (trim_output t)) t
unfolding trim_output
trim_output-drop t = elim (Bool-cases (ltb (job_output_limit * 2) (length t))) [
  | inl h ↦
      rw (h, length-drop (length t - job_output_limit) t)
        (ap (λ n. drop n t)
          (let e : length t - job_output_limit
                ≡ length t - (length t - (length t - job_output_limit)) =
              omega arith in
            e))
  | inr h ↦ rw h (ap (λ n. drop n t) (let e : 0 ≡ length t - length t = omega arith in e))
]

-- The end that is kept follows the writing: whatever is appended, the job counts it, and keeps an
-- end of all that was written.
pub append_output-IsEndOf :
    (w text : Text) (j : Job) → IsEndOf w j → IsEndOf (w ++ text) (append_output text j)
unfolding append_output
append_output-IsEndOf w text j h =
    let full = j.output ++ text in
    let shift = j.output_total - length j.output in
    let lengths = length-append j.output text in
    let bound = length_trim_bounds full in
    let joined : full ≡ drop shift (w ++ text) =
      ap (λ t. t ++ text) h.output ∙ sym (drop-append_le shift w text (omega (arith, h.counted))) in
    record {
      counted = omega (arith, h.counted, length-append w text);
      kept = omega (arith, h.kept, lengths, bound);
      output =
          trim_output-drop full
          ∙ (ap (drop (length full - length (trim_output full))) joined
              ∙ (drop-drop (length full - length (trim_output full)) shift (w ++ text)
                  ∙ ap (λ n. drop n (w ++ text)) (omega (arith, h.kept, lengths, bound))));
    }

visible_output-drop :
    (w : Text) (j : Job)
    → IsEndOf w j
    → visible_output j ≡ drop (j.output_total - length (visible_output j)) w
unfolding visible_output
visible_output-drop w j h =
    let n = length j.output - job_output_limit in
    let shift = j.output_total - length j.output in
    ap (drop n) h.output
    ∙ (drop-drop n shift w ∙ ap (λ k. drop k w) (omega (arith, h.kept, length-drop n j.output)))

length-visible_output : (j : Job) → length (visible_output j) ≤ length j.output
unfolding visible_output
length-visible_output j = omega (arith, length-drop (length j.output - job_output_limit) j.output)

goes_on_bounds :
    (j : Job) (n : ℕ)
    → goes_on j n ≡ true
    → (j.output_total - length (visible_output j) ≤ n) × (n ≤ j.output_total)
unfolding goes_on
goes_on_bounds j zero h = cc
goes_on_bounds j (suc n) h = ground arith

rest_payload-output :
    (w : Text) (j : Job) (n : ℕ)
    → IsEndOf w j
    → goes_on j n ≡ true
    → (rest_payload j n).output ≡ drop n w
rest_payload-output w j n h g =
    let v = length (visible_output j) in
    let k = v - (j.output_total - n) in
    ap (drop k) (visible_output-drop w j h)
    ∙ (drop-drop k (j.output_total - v) w
        ∙ ap (λ m. drop m w) (omega (arith, h.kept, length-visible_output j, goes_on_bounds j n g)))

-- An interface that shows the first `n` characters of what an action wrote and asks for the rest
-- is given exactly what follows them, whenever what is kept reaches back to them: together they are
-- all that was written.
pub job_output_payload-rest :
    (w : Text) (j : Job) (n : ℕ)
    → IsEndOf w j
    → goes_on j n ≡ true
    → take n w ++ (job_output_payload j true (some j.id) (some n)).output ≡ w
unfolding job_output_payload
job_output_payload-rest w j n h g =
    ap (λ t. take n w ++ t) (shown ∙ rest_payload-output w j n h g) ∙ take-append-drop n w
  where
    shown : (job_output_payload j true (some j.id) (some n)).output ≡ (rest_payload j n).output
    shown = ground arith
