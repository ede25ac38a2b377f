-- ===== src/Input/Examples.antt =====
-- A key that overtakes the agent's bytes.
use drei.Base.{◌≡◌, refl, Str, codes, false, List, [], ◌∷◌, ◌++◌}
use drei.Input.{key, agent_bytes, new_queue, next_event}
use drei.Input.Lanes.{
  Operation, putting, taking, closing, run, urgent, patient, urgent_taken, patient_taken, is_idle,
  run-urgent_taken, run-is_idle,
}

-- The last key is put after the queue was closed.
abbrev operations : List (Operation Str)
operations =
    putting (agent_bytes (1 ∷ []))
    ∷ putting (key (codes "a"))
    ∷ taking
    ∷ taking
    ∷ closing
    ∷ putting (key (codes "b"))
    ∷ []

run-urgent_taken_example :
    (urgent_taken Str (run Str operations (new_queue Str)).1
        ++ (run Str operations (new_queue Str)).0.priority
      ≡ urgent Str false operations)
    × (patient_taken Str (run Str operations (new_queue Str)).1
          ++ (run Str operations (new_queue Str)).0.background
        ≡ patient Str false operations)
run-urgent_taken_example = run-urgent_taken Str operations

run-is_idle_example :
    (urgent_taken Str (run Str operations (new_queue Str)).1 ≡ urgent Str false operations)
    × (patient_taken Str (run Str operations (new_queue Str)).1 ≡ patient Str false operations)
unfolding run next_event is_idle
run-is_idle_example = run-is_idle Str operations refl
