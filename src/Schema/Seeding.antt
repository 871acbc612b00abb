-- ===== src/Schema/Seeding.antt =====
-- The sequence of request ids on the database of database/sql/db.sql: `init_request_id_sequence` and
-- `generate_request_id` of libs/db/DatabaseManager.cpp.
pub mod Empty
pub mod Fresh
use management_sensors.Prelude.{
  ℕ, ℤ, pos, zero, suc, ◌+◌, ◌<◌, ◌≤◌, ◌^◌, ◌≡◌, refl, sym, ap, ◌∙◌, subst, inl, inr, Bool, true,
  false, not, ◌&&◌, Text, codes, List, [], ◌∷◌, ◌++◌, append-nil, Option, none, some, Outcome, ok,
  throw, sql_error, ltb, lt→ltb, if◌then◌else◌, to_uint64, to_uint64_of_lt, All, All-implies,
  Option-cases, Bool-cases, arith,
}
use management_sensors.Db.{
  sql_bigint, Connection, is_usable, null, connection, transaction, leave_transaction,
}
use management_sensors.Db.Queries.{
  init_request_id_sequence, generate_request_id, lift, first_bigint,
}
use management_sensors.Schema.{Dialect, ConfigRow, PendingRow, Tables}
use management_sensors.Schema.Statements.{
  Database, find_pending, max_pending_id, max_config_id, greater, or_zero, seed, set_sequence,
  next_value, created, execute, postgres,
}

-- The database with another number in its sequence.
abbrev with_number : ℕ → Database → Database
with_number n d = record d { tables = record d.tables { sequence = some n } }

-- The same, between transactions.
abbrev pub with_sequence : ℕ → Database → Database
with_sequence n d = record d { tables = record d.tables { sequence = some n }; queued = [] }

module _ (g : Dialect) where
  next-some :
      (last : ℕ) (d : Database)
      → suc last < 2 ^ 63
      → next_value g (some last) d
        ≡ (ok ((sql_bigint (pos (suc last)) ∷ []) ∷ []), with_number (suc last) d)
  unfolding next_value
  next-some last d small = rw (lt→ltb (suc last) (2 ^ 63) small) refl

  set-some :
      (n last : ℕ) (d : Database)
      → 0 < n
      → n < 2 ^ 63
      → set_sequence g n (some last) d ≡ (ok ((sql_bigint (pos n) ∷ []) ∷ []), with_number n d)
  unfolding set_sequence
  set-some n last d low high = rw (lt→ltb 0 n low, lt→ltb n (2 ^ 63) high) refl

  next-ready :
      (n : ℕ) (d : Database)
      → d.tables.sequence ≡ some n
      → suc n < 2 ^ 63
      → next_value g d.tables.sequence d
        ≡ (ok ((sql_bigint (pos (suc n)) ∷ []) ∷ []), with_number (suc n) d)
  next-ready n d e small = ap (λ s. next_value g s d) e ∙ next-some n d small

  pub generate_ready :
      (c : Connection) (d : Database) (n : ℕ)
      → is_usable c ≡ true
      → d.tables.sequence ≡ some n
      → suc n < 2 ^ 63
      → generate_request_id (postgres g) c d ≡ (ok (suc n), with_sequence (suc n) d)
  unfolding generate_request_id transaction leave_transaction execute lift first_bigint
  generate_ready c d n usable e small =
      rw (usable, next-ready n (record d { queued = [] }) e small)
        (rw (to_uint64_of_lt (suc n) small, append-nil d.sent) refl)

  seed-number : (n : ℕ) (d : Database) → seed (with_number n d).tables ≡ seed d.tables
  unfolding seed
  seed-number n d = refl

  created-ready :
      (d : Database) → (n : ℕ) × (created g d.tables.sequence d ≡ (ok [], with_number n d))
  unfolding created
  created-ready d = elim (Option-cases d.tables.sequence) [
    | inl absent ↦ (0, ap (λ s. created g s d) absent)
    | inr (last, e) ↦ (
      last,
      ap (λ s. created g s d) e
          ∙ ap (λ s. (ok [], record d { tables = record d.tables { sequence = s } })) e,
    )
  ]

  pub init_ready :
      (c : Connection) (d : Database)
      → is_usable c ≡ true
      → 0 < seed d.tables
      → seed d.tables < 2 ^ 63
      → init_request_id_sequence (postgres g) c d ≡ (ok tt, with_sequence (seed d.tables) d)
  unfolding init_request_id_sequence transaction leave_transaction execute
  init_ready c d usable low high =
      let begun : Database = record d { queued = [] } in
      let (n, e) = created-ready begun in
      rw (usable, e, seed-number n begun, set-some (seed d.tables) n (with_number n begun) low high)
        (rw (append-nil d.sent) refl)
