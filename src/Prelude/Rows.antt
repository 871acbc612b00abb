-- ===== src/Prelude/Rows.antt =====
-- The rows of a table by a key column, which is an integer.
use mathlib.Core.Path.{◌≡◌, refl, sym, ap, ◌∙◌, subst}
use mathlib.Core.Logic.{◌≢◌, inl, inr}
use mathlib.Core.Option.{Option, none, some}
use mathlib.Core.List.{List, [], ◌∷◌, ◌++◌}
use native.Mathlib.Omega.{arith}
use management_sensors.Prelude.Tests.{if◌then◌else◌, Bool-cases}
use management_sensors.Prelude.Int.{ℤ, int_eq, int_eq_iff}
use management_sensors.Prelude.Lists.{All, All-implies}

module _ {A : Type 0} (key : A → ℤ) where
  -- The row with a key.
  unfoldable pub row_of : ℤ → List A → Option A
  row_of k [] = none
  row_of k (row ∷ rows) = if int_eq (key row) k then some row else row_of k rows

  -- A row in the place of the one with its key.
  unfoldable pub replaced : A → List A → List A
  replaced new [] = []
  replaced new (row ∷ rows) =
      let rest = replaced new rows in if int_eq (key row) (key new) then new ∷ rest else row ∷ rest

  -- No two rows have the same key.
  abbrev pub Distinct : List A → Type 0
  Distinct [] = Unit
  Distinct (row ∷ rows) = (row_of (key row) rows ≡ none) × Distinct rows

  pub row_of-append :
      (k : ℤ) (rows : List A) (new : A)
      → row_of k (rows ++ new ∷ []) ≡ (elim (row_of k rows) [
        | some row ↦ some row
        | none ↦ if int_eq (key new) k then some new else none
      ])
  unfolding row_of
  row_of-append k [] new = refl
  row_of-append k (row ∷ rows) new = ground (arith, row_of-append k rows new)

  pub row_of-replaced :
      (k : ℤ) (new : A) (rows : List A)
      → row_of k (replaced new rows) ≡ (elim (row_of k rows) [
        | none ↦ none
        | some row ↦ if int_eq (key new) k then some new else some row
      ])
  unfolding row_of replaced
  row_of-replaced k new [] = refl
  row_of-replaced k new (row ∷ rows) = ground (
    arith,
    row_of-replaced k new rows,
    int_eq_iff (key row) (key new),
    int_eq_iff (key row) k,
    int_eq_iff (key new) k,
  )

  pub Distinct-append :
      (rows : List A) (new : A)
      → row_of (key new) rows ≡ none
      → Distinct rows
      → Distinct (rows ++ new ∷ [])
  unfolding row_of
  Distinct-append [] new h u = (refl, tt)
  Distinct-append (row ∷ rows) new h (p, u) = (
    ground (
      arith,
      row_of-append (key row) rows new,
      int_eq_iff (key row) (key new),
      int_eq_iff (key new) (key row),
    ),
    Distinct-append rows new (ground arith) u,
  )

  pub Distinct-replaced : (new : A) (rows : List A) → Distinct rows → Distinct (replaced new rows)
  unfolding replaced
  Distinct-replaced new [] u = tt
  Distinct-replaced new (row ∷ rows) (p, u) = elim (Bool-cases (int_eq (key row) (key new))) [
    | inl same ↦ rw same (
      ground (arith, row_of-replaced (key new) new rows, int_eq_iff (key row) (key new)),
      Distinct-replaced new rows u,
    )
    | inr other ↦ rw other (
      ground (arith, row_of-replaced (key row) new rows, int_eq_iff (key row) (key new)),
      Distinct-replaced new rows u,
    )
  ]

  -- What holds of the new row and of every old one holds of the rows after the replacement.
  pub All-replaced :
      (P : A → Type 0) (new : A) (rows : List A) → P new → All P rows → All P (replaced new rows)
  unfolding replaced
  All-replaced P new [] p h = tt
  All-replaced P new (row ∷ rows) p (q, h) = elim (Bool-cases (int_eq (key row) (key new))) [
    | inl same ↦ rw same (p, All-replaced P new rows p h)
    | inr other ↦ rw other (q, All-replaced P new rows p h)
  ]

  -- The row that is found has the key, and is one of the rows.
  pub row_of-key : (k : ℤ) (rows : List A) (row : A) → row_of k rows ≡ some row → key row ≡ k
  unfolding row_of
  row_of-key k [] row e = absurd (cc)
  row_of-key k (first ∷ rows) row e = elim (Bool-cases (int_eq (key first) k)) [
    | inl hit ↦
        let same : first ≡ row = ground (arith, e, hit) in
        ap key (sym same) ∙ (int_eq_iff (key first) k).0 hit
    | inr miss ↦ row_of-key k rows row (ground (arith, e, miss))
  ]

  pub row_of-All :
      (P : A → Type 0) (k : ℤ) (rows : List A) (row : A)
      → row_of k rows ≡ some row
      → All P rows
      → P row
  unfolding row_of
  row_of-All P k [] row e h = absurd (cc)
  row_of-All P k (first ∷ rows) row e (p, h) = elim (Bool-cases (int_eq (key first) k)) [
    | inl hit ↦ let same : first ≡ row = ground (arith, e, hit) in subst P same p
    | inr miss ↦ row_of-All P k rows row (ground (arith, e, miss)) h
  ]

  missing-All : (k : ℤ) (rows : List A) → row_of k rows ≡ none → All (λ row. key row ≢ k) rows
  unfolding row_of
  missing-All k [] h = tt
  missing-All k (row ∷ rows) h =
      (λ e. absurd (ground (arith, int_eq_iff (key row) k)), missing-All k rows (ground arith))

  pub row_of-missing :
      (k : ℤ) (rows : List A) → All (λ row. key row ≢ k) rows → row_of k rows ≡ none
  unfolding row_of
  row_of-missing k [] h = refl
  row_of-missing k (row ∷ rows) (n, h) =
      ground (arith, int_eq_iff (key row) k, row_of-missing k rows h)

  -- Every row with the key is the one that is found.
  pub Distinct-only :
      (k : ℤ) (rows : List A) (found : A)
      → Distinct rows
      → row_of k rows ≡ some found
      → All (λ row. key row ≡ k → row ≡ found) rows
  unfolding row_of
  Distinct-only k [] found u e = tt
  Distinct-only k (row ∷ rows) found (p, u) e = elim (Bool-cases (int_eq (key row) k)) [
    | inl hit ↦
        let gone : row_of k rows ≡ none =
          subst (λ j. row_of j rows ≡ none) ((int_eq_iff (key row) k).0 hit) p in
        (
          λ _. ground (arith, e, hit),
          All-implies (λ r. key r ≢ k) (λ r. key r ≡ k → r ≡ found) rows (λ r n q. absurd (n q))
              (missing-All k rows gone),
        )
    | inr miss ↦ (
      λ q. absurd (ground (arith, int_eq_iff (key row) k)),
      Distinct-only k rows found u (ground (arith, e, miss)),
    )
  ]

-- A replacement by one key that keeps the other key of the row.
module _ {A : Type 0} (key other : A → ℤ) (new : A) where
  abbrev Keeps : A → Type 0
  Keeps row = key row ≡ key new → other row ≡ other new

  other-replaced :
      (k : ℤ) (rows : List A)
      → All Keeps rows
      → row_of other k rows ≡ none
      → row_of other k (replaced key new rows) ≡ none
  unfolding row_of replaced
  other-replaced k [] h e = refl
  other-replaced k (row ∷ rows) (p, h) e = elim (Bool-cases (int_eq (key row) (key new))) [
    | inl same ↦
        let kept : other row ≡ other new = p ((int_eq_iff (key row) (key new)).0 same) in
        let tail = other-replaced k rows h (ground (arith, e)) in
        ground (arith, same, kept, tail, e)
    | inr differs ↦
        let tail = other-replaced k rows h (ground (arith, e)) in ground (arith, differs, tail, e)
  ]

  pub Distinct-other :
      (rows : List A)
      → All Keeps rows
      → Distinct other rows
      → Distinct other (replaced key new rows)
  unfolding replaced
  Distinct-other [] h u = tt
  Distinct-other (row ∷ rows) (p, h) (q, u) = elim (Bool-cases (int_eq (key row) (key new))) [
    | inl same ↦
        let kept : other row ≡ other new = p ((int_eq_iff (key row) (key new)).0 same) in
        rw same (
          other-replaced (other new) rows h (subst (λ k. row_of other k rows ≡ none) kept q),
          Distinct-other rows h u,
        )
    | inr differs ↦ rw differs (other-replaced (other row) rows h q, Distinct-other rows h u)
  ]
