-- ===== src/Tests/Threads.antt =====
-- A thread that generates an id and waits for it: libs/db/DatabaseManager.cpp and the dispatcher of
-- server/src/dispatcher.
use management_sensors.Prelude.{◌≡◌, refl, true, [], ◌∷◌, ok, to_uint64}
use management_sensors.Db.{connection, transaction, leave_transaction}
use management_sensors.Db.Queries.{generate_request_id, lift, first_bigint}
use management_sensors.Dispatcher.{init, begin_wait}
use management_sensors.System.Threads.{
  Running, Reach, stays, follows, generates, begins_wait, first, start, Unshared,
}
use management_sensors.System.Threads.Alone.{Reach-Unshared}
use management_sensors.Tests.Storage.{memory, memory-Sequence, last_number, execute_in, next_number}

abbrev memory_step : Running memory
memory_step = record { dispatcher = init; database = ([], 7); given = 7 ∷ [] }

seven-generated : generate_request_id memory (connection true) ([], 6) ≡ (ok 7, ([], 7))
unfolding generate_request_id transaction leave_transaction execute_in next_number lift first_bigint
    to_uint64
seven-generated = refl

abbrev waiting_step : Running memory
waiting_step = record { dispatcher = (begin_wait 7 init).1; database = ([], 7); given = [] }

-- A thread generates its id and begins to wait.
one_waits : Reach memory last_number (start memory last_number ([], 6)) waiting_step
one_waits =
    follows (start memory last_number ([], 6)) memory_step waiting_step
      (generates (connection true) (start memory last_number ([], 6)) 7 ([], 7) seven-generated)
      (follows memory_step waiting_step waiting_step (begins_wait memory_step 7 [] (first []))
        (stays waiting_step))

Reach-Unshared_example : Unshared memory last_number waiting_step
Reach-Unshared_example =
    Reach-Unshared memory last_number memory-Sequence ([], 6) waiting_step one_waits
