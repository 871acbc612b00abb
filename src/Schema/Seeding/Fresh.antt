-- ===== src/Schema/Seeding/Fresh.antt =====
-- The numbers that the sequence of request ids gives after `init_request_id_sequence` of
-- libs/db/DatabaseManager.cpp, against those in the tables of database/sql/db.sql.
use management_sensors.Prelude.{
  ℕ, ℤ, pos, negsuc, suc, ◌<◌, ◌≤◌, ◌≢◌, ◌^◌, ◌≡◌, refl, ap, ◌∙◌, true, List, [], ◌∷◌, Option, none,
  some, ok, All, All-implies, arith,
}
use management_sensors.Prelude.Rows.{row_of-missing}
use management_sensors.Db.{Connection, is_usable}
use management_sensors.Db.Queries.{init_request_id_sequence, generate_request_id}
use management_sensors.Schema.{Dialect, ConfigRow, PendingRow, Tables}
use management_sensors.Schema.Statements.{
  Database, find_pending, max_pending_id, max_config_id, greater, or_zero, seed, postgres,
}
use management_sensors.Schema.Seeding.{with_sequence, generate_ready, init_ready}

-- A request id, if there is one, is at most `n`.
abbrev pub Within : ℕ → Option ℕ → Type 0
Within n none = Unit
Within n (some id) = id ≤ n

-- Every request id of the tables is at most `n`.
abbrev pub Bounded : ℕ → Tables → Type 0
Bounded n t =
    All (λ row. row.request_id ≤ n) t.pendings × All (λ row. Within n row.request_id) t.configs

or_zero-greater :
    (a b : Option ℕ) → (or_zero a ≤ or_zero (greater a b)) × (or_zero b ≤ or_zero (greater a b))
unfolding or_zero greater
or_zero-greater none b = (ground arith, ground arith)
or_zero-greater (some a) none = (ground arith, ground arith)
or_zero-greater (some a) (some b) = (ground arith, ground arith)

Within-or_zero : (a : Option ℕ) (n : ℕ) → or_zero a ≤ n → Within n a
unfolding or_zero
Within-or_zero none n h = tt
Within-or_zero (some a) n h = h

pendings-Bounded :
    (rows : List PendingRow) (n : ℕ)
    → or_zero (max_pending_id rows) ≤ n
    → All (λ row. row.request_id ≤ n) rows
unfolding max_pending_id or_zero
pendings-Bounded [] n h = tt
pendings-Bounded (row ∷ rows) n h =
    let (low, high) = or_zero-greater (some row.request_id) (max_pending_id rows) in
    (omega (arith, h, low), pendings-Bounded rows n (omega (arith, h, high)))

configs-Bounded :
    (rows : List ConfigRow) (n : ℕ)
    → or_zero (max_config_id rows) ≤ n
    → All (λ row. Within n row.request_id) rows
unfolding max_config_id
configs-Bounded [] n h = tt
configs-Bounded (row ∷ rows) n h =
    let (low, high) = or_zero-greater row.request_id (max_config_id rows) in
    (
      Within-or_zero row.request_id n (omega (arith, h, low)),
      configs-Bounded rows n (omega (arith, h, high)),
    )

seed-Bounded : (t : Tables) → Bounded (seed t) t
unfolding seed
seed-Bounded t =
    let (low, high) = or_zero-greater (max_pending_id t.pendings) (max_config_id t.configs) in
    (pendings-Bounded t.pendings (seed t) low, configs-Bounded t.configs (seed t) high)

magnitude : ℤ → ℕ
magnitude (pos n) = n
magnitude (negsuc n) = n

pub above-missing :
    (id n : ℕ) (rows : List PendingRow)
    → n < id
    → All (λ row. row.request_id ≤ n) rows
    → find_pending id rows ≡ none
unfolding magnitude
above-missing id n rows above h =
    row_of-missing (λ row. pos row.request_id) (pos id) rows
      (All-implies (λ row. row.request_id ≤ n) (λ row. pos row.request_id ≢ pos id) rows
        (λ row low same.
          absurd (
            let equal : row.request_id ≡ id = ap magnitude same in
            omega (arith, low, above, equal)))
        h)

module _ (g : Dialect) (c c' : Connection) (d : Database) where
  -- Where some row has a request id above 0, and none the last value of BIGINT, `init_request_id_sequence`
  -- succeeds, and the first id that is generated after it is above every id in the tables, so no
  -- stored request has it.
  pub generate_request_id-fresh :
      is_usable c ≡ true
      → is_usable c' ≡ true
      → 0 < seed d.tables
      → suc (seed d.tables) < 2 ^ 63
      → let id = suc (seed d.tables) in
        let (started, d₁) = init_request_id_sequence (postgres g) c d in
        (started ≡ ok tt)
        × ((generate_request_id (postgres g) c' d₁).0 ≡ ok id)
        × Bounded (seed d.tables) d.tables
        × (find_pending id d.tables.pendings ≡ none)
  generate_request_id-fresh usable usable' low small =
      let started = init_ready g c d usable low (omega arith) in
      let d₁ = with_sequence (seed d.tables) d in
      let (requests, configs) = seed-Bounded d.tables in
      (
        ap (λ x. x.0) started,
        ap (λ x. (generate_request_id (postgres g) c' x.1).0) started
            ∙ ap (λ x. x.0) (generate_ready g c' d₁ (seed d.tables) usable' refl small),
        (requests, configs),
        above-missing (suc (seed d.tables)) (seed d.tables) d.tables.pendings (omega arith)
            requests,
      )

  -- Where the last number that the sequence has given is the highest stored id, an id that is generated
  -- then and not yet stored is generated again, if another server calls `init_request_id_sequence`
  -- meanwhile.
  pub init_request_id_sequence-repeats :
      is_usable c ≡ true
      → is_usable c' ≡ true
      → d.tables.sequence ≡ some (seed d.tables)
      → 0 < seed d.tables
      → suc (seed d.tables) < 2 ^ 63
      → let id = suc (seed d.tables) in
        let (made, d₁) = generate_request_id (postgres g) c d in
        let (started, d₂) = init_request_id_sequence (postgres g) c' d₁ in
        (made ≡ ok id) × (started ≡ ok tt) × ((generate_request_id (postgres g) c' d₂).0 ≡ ok id)
  unfolding seed
  init_request_id_sequence-repeats usable usable' current low small =
      let n = seed d.tables in
      let d₁ = with_sequence (suc n) d in
      let d₂ = with_sequence n d₁ in
      let made = generate_ready g c d n usable current small in
      let started = init_ready g c' d₁ usable' low (omega arith) in
      let again = generate_ready g c' d₂ n usable' refl small in
      rw made (refl, ap (λ x. x.0) started, rw started (ap (λ x. x.0) again))
