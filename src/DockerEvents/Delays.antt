-- ===== src/DockerEvents/Delays.antt =====
-- The waits of the loop.
use sdk_local_manager.Prelude.{
  ℕ, zero, suc, ◌+◌, ◌-◌, ◌≤◌, ◌≡◌, min, false, List, [], ◌∷◌, arith, All, Bool-cases, inl, inr,
  ltb, ◌⊎◌,
}
use sdk_local_manager.DockerEvents.{
  Turn, delay_after, item_at, retry_delays_seconds, listen, failures_after, run,
}

item_at_steps :
    (i : ℕ)
    → (1 ≤ item_at retry_delays_seconds i)
      × (item_at retry_delays_seconds i ≤ 30)
      × (item_at retry_delays_seconds i ≤ item_at retry_delays_seconds (suc i))
item_at_steps zero = (omega arith, omega arith, omega arith)
item_at_steps (suc zero) = (omega arith, omega arith, omega arith)
item_at_steps (suc (suc zero)) = (omega arith, omega arith, omega arith)
item_at_steps (suc (suc (suc zero))) = (omega arith, omega arith, omega arith)
item_at_steps (suc (suc (suc (suc i)))) = (omega arith, omega arith, omega arith)

next_index :
    (n : ℕ) → (min (n + 1 - 1) 4 ≡ min (n - 1) 4) ⊎ (min (n + 1 - 1) 4 ≡ suc (min (n - 1) 4))
next_index n = elim (Bool-cases (ltb (min (n - 1) 4) (min (n + 1 - 1) 4))) [
  | inl h ↦ inr (ground arith)
  | inr h ↦ inl (ground arith)
]

delay_cases :
    (n : ℕ) → (1 ≤ delay_after n) × (delay_after n ≤ 30) × (delay_after n ≤ delay_after (n + 1))
unfolding delay_after
delay_cases n =
    let steps = item_at_steps (min (n - 1) 4) in
    (steps.0, steps.1, elim (next_index n) [ inl e ↦ rw e (omega arith) | inr e ↦ rw e steps.2 ])

abbrev pub IsWait : ℕ → Type 0
IsWait w = (1 ≤ w) × (w ≤ 30)

-- Whatever Docker and the other threads do, the loop neither spins nor falls asleep: each wait
-- before a new listening takes between one and thirty seconds.
pub run-IsWait : (failures : ℕ) (turns : List Turn) → All IsWait (run failures turns).waits
unfolding run
run-IsWait failures [] = tt
run-IsWait failures (t ∷ turns) = elim (Bool-cases t.stopped) [
  | inl a ↦ rw a tt
  | inr a ↦ elim (Bool-cases t.interrupt) [
    | inl b ↦ rw (a, b) (run-IsWait 0 turns)
    | inr b ↦
        let n = failures_after (listen t.stream).0 failures in
        let wait : IsWait (delay_after n) = ((delay_cases n).0, (delay_cases n).1) in
        elim (Bool-cases t.stopped_waiting) [
          | inl c ↦ rw (a, b, c) (wait, tt)
          | inr c ↦ elim (Bool-cases t.interrupt_waiting) [
            | inl d ↦ rw (a, b, c, d) (wait, run-IsWait 0 turns)
            | inr d ↦ rw (a, b, c, d) (wait, run-IsWait n turns)
          ]
        ]
  ]
]

-- A turn that goes wrong, and that no other thread disturbs.
abbrev pub IsFailure : Turn → Type 0
IsFailure t =
    ((listen t.stream).0 ≡ false)
    × (t.stopped ≡ false)
    × (t.interrupt ≡ false)
    × (t.stopped_waiting ≡ false)
    × (t.interrupt_waiting ≡ false)

abbrev pub Ascending : ℕ → List ℕ → Type 0
Ascending n [] = Unit
Ascending n (w ∷ ws) = (n ≤ w) × Ascending w ws

-- While Docker stays away, the waits never become shorter.
pub run-Ascending :
    (failures : ℕ) (turns : List Turn)
    → All IsFailure turns
    → Ascending (delay_after failures) (run failures turns).waits
unfolding run
run-Ascending failures [] h = tt
run-Ascending failures (t ∷ turns) h =
    let (held, a, b, c, d) = h.0 in
    rw (held, a, b, c, d) ((delay_cases failures).2, run-Ascending (failures + 1) turns h.1)
