-- ===== src/Tests/Storage.antt =====
-- A small database that keeps what is stored, and the methods of libs/db/DatabaseManager.cpp on it.
use management_sensors.Prelude.{
  ℕ, ◌+◌, ◌^◌, ◌<◌, ◌≤◌, ◌≡◌, refl, pos, codes, List, [], ◌∷◌, Outcome, ok, throw, sql_error, true,
  arith, if◌then◌else◌, ltb, Bool-cases, inl, inr, to_uint64,
}
use management_sensors.Db.{
  Statement, upsert_state, insert_pending, next_request_id, sql_bigint, Rows, Postgres, connection,
  transaction,
}
use management_sensors.Db.Queries.{add_pending_config, generate_request_id}
use management_sensors.Db.Queries.Errors.{Atomic, Ends, IsBroken, add_pending_config-Ends}
use management_sensors.Db.Queries.Ids.{Sequence}

-- The statements that stored something, and the last number of the sequence.
abbrev pub Store : Type 0
Store = List Statement × ℕ

unfoldable pub next_number : ℕ → Store → Outcome Rows × Store
next_number n s =
    if ltb (n + 1) (2 ^ 63)
    then (ok ((sql_bigint (pos (n + 1)) ∷ []) ∷ []), (s.0, n + 1))
    else (throw (sql_error (codes "nextval: reached maximum value of sequence")), s)

unfoldable pub execute_in : Statement → Store → Outcome Rows × Store
unfolding next_number
execute_in next_request_id (rows, n) = next_number n (rows, n)
execute_in (insert_pending id sensor_id hostname ip active) (rows, n) =
    (ok [], (insert_pending id sensor_id hostname ip active ∷ rows, n))
execute_in (upsert_state sensor_id temp) (rows, n) =
    (ok [], (upsert_state sensor_id temp ∷ rows, n))
execute_in q s = (ok [], s)

abbrev pub memory : Postgres
memory = record {
  State = Store;
  open_connection = λ uri s. (ok true, s);
  begin = λ s. (ok tt, s);
  exec = execute_in;
  listen = λ channel s. (ok tt, s);
  commit = λ s. (ok tt, s);
  rollback = λ before after. (before.0, after.1);
  close_connection = λ s. (ok tt, s);
  backend_pid = λ s. pos 4711;
  pqxx_version = codes "7.9.0";
}

abbrev stored : Store → List Statement
stored s = s.0

memory-Atomic : Atomic memory stored
memory-Atomic = record { begin_keeps = λ s. refl; rollback_restores = λ s s'. refl }

abbrev pub last_number : Store → ℕ
last_number s = s.1

next_number-value :
    (n : ℕ) (s s' : Store) (rows : Rows)
    → next_number n s ≡ (ok rows, s')
    → (k : ℕ) × (rows ≡ (sql_bigint (pos k) ∷ []) ∷ []) × (n < k) × (k ≤ s'.1) × (k < 2 ^ 63)
unfolding next_number
next_number-value n s s' rows h = elim (Bool-cases (ltb (n + 1) (2 ^ 63))) [
  | inl room ↦ (n + 1, ground (arith, room), omega arith, ground (arith, room), ground arith)
  | inr full ↦ absurd (ground (arith, full))
]

pub memory-Sequence : Sequence memory last_number
unfolding execute_in
memory-Sequence = record {
  begin_keeps = λ s. omega arith;
  commit_keeps = λ s. omega arith;
  next_value = λ s s' rows h. next_number-value s.1 s s' rows h;
}

abbrev pub empty_store : Store
empty_store = ([], 41)

add_pending_config-Ends_example :
    Ends memory stored memory-Atomic IsBroken
      (insert_pending 7 (pos 3) (codes "sensor-3") (codes "10.0.0.3") true)
      empty_store
      (add_pending_config memory
        (connection true)
        (pos 3)
        (codes "sensor-3")
        (codes "10.0.0.3")
        true
        7
        empty_store)
add_pending_config-Ends_example =
    add_pending_config-Ends memory stored memory-Atomic (pos 3) (codes "sensor-3")
      (codes "10.0.0.3") true 7 empty_store

made_42 : generate_request_id memory (connection true) empty_store ≡ (ok 42, ([], 42))
unfolding generate_request_id transaction execute_in to_uint64
made_42 = refl

made_43 : generate_request_id memory (connection true) ([], 42) ≡ (ok 43, ([], 43))
unfolding generate_request_id transaction execute_in to_uint64
made_43 = refl
