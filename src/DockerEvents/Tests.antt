-- ===== src/DockerEvents/Tests.antt =====
-- A Docker that stays away, and the theorems of the loop at it.
use sdk_local_manager.Prelude.{◌≡◌, refl, false, none, List, [], ◌∷◌}
use sdk_local_manager.DockerEvents.{Turn, delay_after, listen, run}
use sdk_local_manager.DockerEvents.Delays.{IsFailure}

abbrev failing : Turn
failing = record {
  stream = none;
  stopped = false;
  interrupt = false;
  stopped_waiting = false;
  interrupt_waiting = false;
}

abbrev away : List Turn
away = failing ∷ failing ∷ failing ∷ failing ∷ failing ∷ failing ∷ []

waits_away : (run 0 away).waits ≡ 1 ∷ 2 ∷ 5 ∷ 10 ∷ 30 ∷ 30 ∷ []
unfolding run listen delay_after
waits_away = refl

IsFailure-failing : IsFailure failing
unfolding listen
IsFailure-failing = (refl, refl, refl, refl, refl)
