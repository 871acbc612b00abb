-- ===== src/Db/Queries/Errors.antt =====
-- What the methods of libs/db/DatabaseManager.cpp report, and what they leave in the tables.
use management_sensors.Prelude.{
  ℕ, ℤ, ◌≡◌, refl, sym, ap, ◌∙◌, ◌⊎◌, inl, inr, Bool, true, Text, Outcome, ok, throw, Exception,
  sql_error, broken_connection, std_exception, safe,
}
use management_sensors.Db.{
  Statement, upsert_state, upsert_config, insert_pending, Rows, Postgres, connection, Exec,
  transaction, leave_transaction, continue, continue-ok, leave-ok, ◌>>◌,
}
use management_sensors.Db.Queries.{
  swallow_unless_sql, swallow_broken, no_certificate, require_certificate, upsert_sensor_state,
  upsert_sensor_config, add_pending_config,
}

-- What PostgreSQL guarantees of a part of the state, such as the tables: beginning a transaction does
-- not change it, and a transaction that is rolled back leaves it as it was. A commit that throws counts
-- as rolled back; the case that libpqxx reports as in doubt is left out.
pub record Atomic (p : Postgres) {T : Type 0} (tables : p.State → T) : Type 0 where
  pub begin_keeps : (s : p.State) → tables (p.begin s).1 ≡ tables s
  pub rollback_restores : (s s' : p.State) → tables (p.rollback s s') ≡ tables s

-- The exceptions that `add_pending_config` hides, and those that the two upserts hide.
abbrev pub IsBroken : Exception → Type 0
IsBroken (broken_connection m) = Unit
IsBroken _ = ⊥

abbrev pub IsNotSql : Exception → Type 0
IsNotSql (sql_error m) = ⊥
IsNotSql _ = Unit

module _ (p : Postgres) where
  open p use {State, begin, exec, commit, rollback}

  -- One statement is executed and committed, from one state to another.
  pub record Committed (q : Statement) (s s' : State) : Type 0 where
    pub begun : State
    pub rows : Rows
    pub done : State
    pub begins : begin s ≡ (ok tt, begun)
    pub executes : exec q begun ≡ (ok rows, done)
    pub commits : commit done ≡ (ok tt, s')

  abbrev pub exec_commit : Statement → Exec State (Unit {0})
  exec_commit q = exec q >> commit

  exec_commit-Committed :
      (q : Statement) (s : State)
      → (transaction p (exec_commit q) s).0 ≡ ok tt
      → Committed q s (transaction p (exec_commit q) s).1
  unfolding transaction
  exec_commit-Committed q s h =
      let (u, e₁, h₁, r₁) =
        continue-ok (λ _ s'. leave_transaction p s (exec_commit q s')) (begin s) tt h in
      let s₁ = (begin s).1 in
      let (h₂, r₂) = leave-ok p s (exec_commit q s₁) tt h₁ in
      let (rows, e₂, h₃, r₃) = continue-ok (λ _. commit) (exec q s₁) tt h₂ in
      let s₂ = (exec q s₁).1 in
      let whole = r₁ ∙ r₂ ∙ r₃ in
      record {
        begun = s₁;
        rows = rows;
        done = s₂;
        begins = e₁;
        executes = e₂;
        commits = λ i. (h₃ i, sym (ap (λ x. x.1) whole) i);
      }

  module _ {T : Type 0} (tables : State → T) (a : Atomic p tables) where
    leave-throw :
        {A : Type 0} (b : State) (r : Outcome A × State) (e : Exception)
        → (leave_transaction p b r).0 ≡ throw e
        → tables (leave_transaction p b r).1 ≡ tables b
    unfolding leave_transaction
    leave-throw b (ok x, s) e h = cc
    leave-throw b (throw x, s) e h = a.rollback_restores b s

    transaction-throw :
        {A : Type 0} (body : Exec State A) (s : State) (m : Outcome (Unit {0}) × State)
        (e : Exception)
        → tables m.1 ≡ tables s
        → (continue (λ _ s'. leave_transaction p s (body s')) m).0 ≡ throw e
        → tables (continue (λ _ s'. leave_transaction p s (body s')) m).1 ≡ tables s
    transaction-throw body s (ok u, s') e k h = leave-throw s (body s') e h
    transaction-throw body s (throw x, s') e k h = k

    -- A transaction that throws leaves the tables as they were.
    pub transaction-Atomic :
        {A : Type 0} (body : Exec State A) (s : State) (e : Exception)
        → (transaction p body s).0 ≡ throw e
        → tables (transaction p body s).1 ≡ tables s
    unfolding transaction
    transaction-Atomic body s e h = transaction-throw body s (begin s) e (a.begin_keeps s) h

    -- How a method ends that hides some exceptions from its caller: it has stored and committed its
    -- statement; or it has stored nothing, and throws, or hides the exception of its transaction.
    abbrev pub Ends : (Exception → Type 0) → Statement → State → Outcome (Unit {0}) × State → Type 0
    Ends Hidden q s o =
        ((o.0 ≡ ok tt) × Committed q s o.1)
        ⊎ ((tables o.1 ≡ tables s)
            × (((e : Exception) × (o.0 ≡ throw e) × (¬ Hidden e))
                ⊎ ((e : Exception) × (o.0 ≡ ok tt)
                    × ((transaction p (exec_commit q) s).0 ≡ throw e)
                    × Hidden e)))

    pending-Ends :
        (q : Statement) (s : State) (r : Outcome (Unit {0}))
        → (transaction p (exec_commit q) s).0 ≡ r
        → Ends IsBroken q s (swallow_broken r, (transaction p (exec_commit q) s).1)
    unfolding swallow_broken
    pending-Ends q s (ok u) h = inl (refl, exec_commit-Committed q s h)
    pending-Ends q s (throw (broken_connection m)) h =
        inr (transaction-Atomic (exec_commit q) s _ h, inr (broken_connection m, refl, h, tt))
    pending-Ends q s (throw (sql_error m)) h =
        inr (transaction-Atomic (exec_commit q) s _ h, inl (sql_error m, refl, λ b. b))
    pending-Ends q s (throw (std_exception m)) h =
        inr (transaction-Atomic (exec_commit q) s _ h, inl (std_exception m, refl, λ b. b))

    state-Ends :
        (q : Statement) (s : State) (r : Outcome (Unit {0}))
        → (transaction p (exec_commit q) s).0 ≡ r
        → Ends IsNotSql q s (swallow_unless_sql r, (transaction p (exec_commit q) s).1)
    unfolding swallow_unless_sql
    state-Ends q s (ok u) h = inl (refl, exec_commit-Committed q s h)
    state-Ends q s (throw (sql_error m)) h =
        inr (transaction-Atomic (exec_commit q) s _ h, inl (sql_error m, refl, λ b. b))
    state-Ends q s (throw (broken_connection m)) h =
        inr (transaction-Atomic (exec_commit q) s _ h, inr (broken_connection m, refl, h, tt))
    state-Ends q s (throw (std_exception m)) h =
        inr (transaction-Atomic (exec_commit q) s _ h, inr (std_exception m, refl, h, tt))

    -- Over an open connection, `add_pending_config` stores and commits the request and returns; or the
    -- tables are as they were, and it throws the exception, unless that was a broken connection, which
    -- it hides from its caller.
    pub add_pending_config-Ends :
        (sensor_id : ℤ) (hostname ip : Text) (is_active : Bool) (id : ℕ) (s : State)
        → Ends IsBroken
            (insert_pending id sensor_id hostname ip is_active)
            s
            (add_pending_config p (connection true) sensor_id hostname ip is_active id s)
    unfolding add_pending_config
    add_pending_config-Ends sensor_id hostname ip is_active id s =
        pending-Ends (insert_pending id sensor_id hostname ip is_active) s _ refl

    -- Over an open connection, `upsert_sensor_state` stores and commits the temperature and returns; or
    -- the tables are as they were, and it throws if the exception was an SQL error, and hides any other
    -- exception from its caller.
    pub upsert_sensor_state-Ends :
        (sensor_id : ℤ) (temp : ℕ) (s : State)
        → Ends IsNotSql
            (upsert_state sensor_id temp)
            s
            (upsert_sensor_state p (connection true) sensor_id temp s)
    unfolding upsert_sensor_state
    upsert_sensor_state-Ends sensor_id temp s = state-Ends (upsert_state sensor_id temp) s _ refl

  -- Where the statement gives back no certificate, `upsert_sensor_config` rolls its transaction back and
  -- returns to its caller as if it had stored the configuration.
  pub upsert_sensor_config-hides :
      (open_now : Bool) (sensor_id : ℤ) (hostname ip : Text) (is_active : Bool) (id : ℕ)
      (s s₁ s₂ : State) (rows : Rows)
      → begin s ≡ (ok tt, s₁)
      → exec (upsert_config sensor_id hostname ip is_active id) s₁ ≡ (ok rows, s₂)
      → no_certificate rows ≡ true
      → upsert_sensor_config p (connection open_now) sensor_id hostname ip is_active id s
        ≡ safe (ok tt, rollback s s₂)
  unfolding upsert_sensor_config transaction
  upsert_sensor_config-hides open_now sensor_id hostname ip is_active id s s₁ s₂ rows b e n =
      rw b (rw e (rw (n, require_certificate) refl))
