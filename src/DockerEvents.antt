-- ===== src/DockerEvents.antt =====
-- odoo_manager_core/docker_events.py: the loop that keeps `docker events` open.
--
-- The process, the clock and the other threads are outside: a `Turn` says what they do during one
-- turn of the loop. A duration is a number of whole seconds. The filters of the command, and
-- `connected`, are not modelled.
pub mod Delays
pub mod Tests
use sdk_local_manager.Prelude.{
  ℕ, zero, suc, ◌+◌, ◌-◌, min, Bool, true, false, Option, none, some, List, [], ◌∷◌, ◌++◌, leb,
  if◌then◌else◌,
}
use sdk_local_manager.Prelude.Text.{Text, strip}

-- RETRY_DELAYS_SECONDS, CONNECTED_AFTER_SECONDS
abbrev pub retry_delays_seconds : List ℕ
retry_delays_seconds = 1 ∷ 2 ∷ 5 ∷ 10 ∷ 30 ∷ []

abbrev pub connected_after_seconds : ℕ
connected_after_seconds = 2

-- `xs[i]`, for an index that is in range, with a last item for the others
abbrev pub item_at : List ℕ → ℕ → ℕ
item_at [] i = 0
item_at (x ∷ []) i = x
item_at (x ∷ y ∷ xs) zero = x
item_at (x ∷ y ∷ xs) (suc i) = item_at (y ∷ xs) i

unfoldable pub delay_after : ℕ → ℕ
delay_after failures = item_at retry_delays_seconds (min (failures - 1) 4)

-- What happens in one turn: the command cannot be started (`none`) or writes lines for some time;
-- `stop` and `restart` may be called while it is open, or during the wait that follows.
pub record Turn : Type 0 where
  pub stream : Option (List Text × ℕ)
  pub stopped : Bool
  pub interrupt : Bool
  pub stopped_waiting : Bool
  pub interrupt_waiting : Bool

abbrev pub reported : List Text → List Text
reported [] = []
reported (line ∷ lines) =
    let rest = reported lines in elim (strip line) [ [] ↦ rest | c ∷ t ↦ (c ∷ t) ∷ rest ]

-- `_listen`: whether it held, and the calls of `on_change`.
unfoldable pub listen : Option (List Text × ℕ) → Bool × List Text
listen none = (false, [])
listen (some (lines, duration)) = (leb connected_after_seconds duration, reported lines ++ [] ∷ [])

-- The waits before a new listening, and the calls of `on_change`.
pub record Trace : Type 0 where
  pub waits : List ℕ
  pub changes : List Text

abbrev pub waited : ℕ → List Text → Trace → Trace
waited delay changes rest = record { waits = delay ∷ rest.waits; changes = changes ++ rest.changes }

abbrev pub listened : List Text → Trace → Trace
listened changes rest = record rest { changes = changes ++ rest.changes }

abbrev pub no_trace : Trace
no_trace = record { waits = []; changes = [] }

abbrev pub failures_after : Bool → ℕ → ℕ
failures_after true failures = 0
failures_after false failures = failures + 1

-- `_run`, from the turns that it takes.
unfoldable pub run : ℕ → List Turn → Trace
run failures [] = no_trace
run failures (t ∷ turns) =
    let (held, changes) = listen t.stream in
    let failures' = failures_after held failures in
    let again = run 0 turns in
    let later = run failures' turns in
    if t.stopped
    then listened changes no_trace
    else if t.interrupt
    then listened changes again
    else if t.stopped_waiting
    then waited (delay_after failures') changes no_trace
    else if t.interrupt_waiting
    then waited (delay_after failures') changes again
    else waited (delay_after failures') changes later
