-- ===== src/Db/Queries/Ids.antt =====
-- The request ids of `generate_request_id` of libs/db/DatabaseManager.cpp.
use management_sensors.Prelude.{
  ℕ, pos, to_uint64, to_uint64_of_lt, ◌^◌, ◌<◌, ◌≤◌, ◌≡◌, refl, sym, ap, subst, ◌∙◌, true, false,
  [], ◌∷◌, Outcome, ok, arith,
}
use management_sensors.Db.{
  next_request_id, sql_bigint, Rows, Postgres, Connection, null, connection, Exec, pure,
  transaction, leave_transaction, continue-ok, leave-ok, ◌>>=◌, ◌>>◌,
}
use management_sensors.Db.Queries.{generate_request_id, lift, first_bigint}

-- What PostgreSQL documents of a sequence: `nextval` gives one row with a number above every one that
-- it gave before, within 63 bits; and nothing that a transaction does, its rollback included, takes a
-- number back. `last` is the last number given.
pub record Sequence (p : Postgres) (last : p.State → ℕ) : Type 0 where
  pub begin_keeps : (s : p.State) → last s ≤ last (p.begin s).1
  pub commit_keeps : (s : p.State) → last s ≤ last (p.commit s).1
  pub next_value :
      (s s' : p.State) (rows : Rows)
      → p.exec next_request_id s ≡ (ok rows, s')
      → (n : ℕ) × (rows ≡ (sql_bigint (pos n) ∷ []) ∷ [])
        × (last s < n)
        × (n ≤ last s')
        × (n < 2 ^ 63)

module _ (p : Postgres) (last : p.State → ℕ) (q : Sequence p last) where
  open p use {State, begin, exec, commit, rollback}

  next_body : Exec State Rows
  next_body = exec next_request_id >>= (λ rows. commit >> pure rows)

  read_id : Rows → Exec State ℕ
  unfolding lift first_bigint
  read_id rows = lift p (first_bigint rows) >>= (λ z. pure (to_uint64 z))

  -- The block of the method, cut at each call: the states that it goes through and the row it reads.
  record Made (s : State) (rows : Rows) (s' : State) : Type 0 where
    begun : State
    given : State
    begins : (begin s).1 ≡ begun
    executes : exec next_request_id begun ≡ (ok rows, given)
    commits : (commit given).1 ≡ s'

  block-Made :
      (s : State) (rows : Rows)
      → (transaction p next_body s).0 ≡ ok rows
      → Made s rows (transaction p next_body s).1
  unfolding transaction next_body
  block-Made s rows h =
      let (u, e₁, h₁, r₁) =
        continue-ok (λ _ s'. leave_transaction p s (next_body s')) (begin s) rows h in
      let s₁ = (begin s).1 in
      let (h₂, r₂) = leave-ok p s (next_body s₁) rows h₁ in
      let (rows', e₂, h₃, r₃) =
        continue-ok (λ rows. commit >> pure rows) (exec next_request_id s₁) rows h₂ in
      let s₂ = (exec next_request_id s₁).1 in
      let (v, e₃, h₄, r₄) = continue-ok (λ _. pure rows') (commit s₂) rows h₃ in
      let same : rows' ≡ rows = cc in
      record {
        begun = s₁;
        given = s₂;
        begins = refl;
        executes = e₂ ∙ ap (λ r. (ok r, s₂)) same;
        commits = sym (ap (λ x. x.1) (r₁ ∙ r₂ ∙ r₃ ∙ r₄));
      }

  read_id-value :
      (rows : Rows) (n : ℕ) (s : State)
      → rows ≡ (sql_bigint (pos n) ∷ []) ∷ []
      → n < 2 ^ 63
      → read_id rows s ≡ (ok n, s)
  unfolding read_id
  read_id-value rows n s e b = rw e (ap (λ k. (ok k, s)) (to_uint64_of_lt n b))

  Made-next :
      (s s' s'' : State) (rows : Rows) (id : ℕ)
      → Made s rows s'
      → read_id rows s' ≡ (ok id, s'')
      → (last s < id) × (id ≤ last s'')
  Made-next s s' s'' rows id m h =
      let (n, row, above, kept, small) = q.next_value m.begun m.given rows m.executes in
      let value : ◌≡◌ {A = Outcome ℕ × State} (ok n, s') (ok id, s'') =
        sym (read_id-value rows n s' row small) ∙ h in
      let same_id : n ≡ id = cc in
      let same_state : s' ≡ s'' = cc in
      let low : last s ≤ last m.begun = subst (λ x. last s ≤ last x) m.begins (q.begin_keeps s) in
      let high : last m.given ≤ last s' =
        subst (λ x. last m.given ≤ last x) m.commits (q.commit_keeps m.given) in
      let last_same : last s' ≡ last s'' = ap last same_state in (omega arith, omega arith)

  pub generate_request_id-next :
      (c : Connection) (s s' : State) (id : ℕ)
      → generate_request_id p c s ≡ (ok id, s')
      → (last s < id) × (id ≤ last s')
  unfolding generate_request_id read_id next_body
  generate_request_id-next null s s' id h = absurd (cc)
  generate_request_id-next (connection false) s s' id h = absurd (cc)
  generate_request_id-next (connection true) s s' id h =
      let t = transaction p next_body s in
      let (rows, e, h₁, r) = continue-ok read_id t id (ap (λ x. x.0) h) in
      Made-next s t.1 s' rows id (block-Made s rows (ap (λ x. x.0) e)) (sym r ∙ h)

  -- Of two request ids, made one after the other with any work between them that takes no number back,
  -- the later is greater.
  pub generate_request_id-increases :
      (c d : Connection) (s₁ s₂ s₃ s₄ : State) (id later : ℕ)
      → generate_request_id p c s₁ ≡ (ok id, s₂)
      → last s₂ ≤ last s₃
      → generate_request_id p d s₃ ≡ (ok later, s₄)
      → id < later
  generate_request_id-increases c d s₁ s₂ s₃ s₄ id later h k g = omega (
    arith,
    (generate_request_id-next c s₁ s₂ id h).1,
    (generate_request_id-next d s₃ s₄ later g).0,
  )
