-- ===== src/Tests/Dispatching.antt =====
-- Runs of the dispatcher: server/src/dispatcher/Dispatcher.cpp.
use management_sensors.Prelude.{
  ℕ, ◌≡◌, ◌↔◌, refl, none, some, List, [], ◌∷◌, arith, length, safe, codes,
}
use management_sensors.Prelude.Map.{lookup}
use management_sensors.Dispatcher.{
  success, timeout, db_error, World, Section, begins, ends, dispatches, init, max_pending,
  begin_wait, end_wait, run, wait_for_response, status_to_string,
}
use management_sensors.Dispatcher.Safety.{Inv, init-Inv, run-Inv}
use management_sensors.Dispatcher.Limits.{full_iff, shadowed}
use management_sensors.Dispatcher.Delivery.{Returns, Unused, wait_for_response-Returns}

-- While request 7 is waited for, another thread waits for 8, both are answered, and the other ends.
abbrev two_requests : List Section
two_requests = begins 8 ∷ dispatches 8 db_error ∷ dispatches 7 success ∷ ends 1 ∷ []

init-Unused : (id : ℕ) → Unused id init
unfolding lookup
init-Unused id b f p = absurd (cc)

wait_for_response-Returns_example : Returns 7 0 success (wait_for_response 7 two_requests init)
wait_for_response-Returns_example =
    wait_for_response-Returns 7 two_requests init init-Inv (omega arith) (init-Unused 7)
      (λ e. omega arith, (tt, (tt, (λ e. omega arith, tt))))

run-Inv_example : (w : World) × (run two_requests init ≡ safe w) × Inv w
run-Inv_example = run-Inv two_requests init init-Inv

abbrev one_pending : World
one_pending = (begin_wait 7 init).1

run-one_pending : run (begins 7 ∷ []) init ≡ safe one_pending
unfolding run
run-one_pending = refl

full_iff_example :
    ((begin_wait 8 one_pending).0 ≡ none) ↔ (length one_pending.pending_requests ≡ max_pending)
full_iff_example = full_iff 8 (begins 7 ∷ []) one_pending run-one_pending

shadowed_example :
    (w : World) × (wait_for_response 7 (begins 7 ∷ dispatches 7 success ∷ []) init
      ≡ safe (some timeout, w))
    × ((end_wait 1 w).0 ≡ some success)
shadowed_example = shadowed 7 success init init-Inv (omega arith)

-- The text of a timeout.
timeout_text : status_to_string timeout ≡ codes "ERROR: Request Timed Out"
unfolding status_to_string
timeout_text = refl
