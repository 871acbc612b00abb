-- ===== src/System/Threads/Alone.antt =====
-- The request ids of the server's threads: server/src/http/QuantumSafeHttp.cpp with
-- libs/db/DatabaseManager.cpp and server/src/dispatcher/Dispatcher.cpp.
use management_sensors.Prelude.{
  ℕ, ◌≤◌, ◌≡◌, ◌≢◌, sym, subst, ◌∙◌, inl, inr, List, ◌∷◌, ok, arith, All, All-implies, All-both,
}
use management_sensors.Prelude.Map.{lookup}
use management_sensors.Dispatcher.{World, begin_wait, end_wait}
use management_sensors.Dispatcher.Safety.{Inv, init-Inv, begin_wait-Inv, end_wait-Inv, dispatch-Inv}
use management_sensors.Dispatcher.Frames.{
  Shrinks, end_wait-Shrinks, dispatch-Shrinks, begin_wait_frames,
}
use management_sensors.Dispatcher.Delivery.{Unused}
use management_sensors.Db.{Postgres, Connection}
use management_sensors.Db.Queries.{generate_request_id}
use management_sensors.Db.Queries.Ids.{Sequence, generate_request_id-next}
use management_sensors.System.Threads.{
  Running, Taken, first, later, Different, Step, generates, begins_wait, ends_wait, works, delivers,
  Reach, stays, follows, start, Unshared,
}

Taken-All :
    (P : ℕ → Type 0) (id : ℕ) (ids rest : List ℕ)
    → Taken id ids rest
    → All P ids
    → P id × All P rest
Taken-All P id ids rest (first others) (h, hs) = (h, hs)
Taken-All P id ids rest (later j more others t) (h, hs) =
    let (k, ks) = Taken-All P id more others t hs in (k, (h, ks))

Taken-Different :
    (id : ℕ) (ids rest : List ℕ)
    → Taken id ids rest
    → Different ids
    → All (λ j. j ≢ id) rest × Different rest
Taken-Different id ids rest (first others) (h, hs) = (h, hs)
Taken-Different id ids rest (later j more others t) (h, hs) =
    let (k, ks) = Taken-Different id more others t hs in
    let (apart, still) = Taken-All (λ i. i ≢ j) id more others t h in
    ((λ e. apart (sym e), k), (still, ks))

module _ (p : Postgres) (last : p.State → ℕ) where
  Unshared-Shrinks :
      (s : Running p) (w : World)
      → Unshared p last s
      → Inv w
      → Shrinks s.dispatcher w
      → Unshared p last (record s { dispatcher = w })
  Unshared-Shrinks s w o v shrinks = record {
    inv = v;
    given = λ a f e.
        let (h, e', same) = shrinks a f e in let low = o.given a h e' in omega (arith, low, same);
    alone = λ a b f h e k same.
        let (f', e', p₁) = shrinks a f e in
        let (h', k', p₂) = shrinks b h k in o.alone a b f' h' e' k' (p₁ ∙ same ∙ sym p₂);
    unused =
        All-implies (λ id. (id ≤ last s.database) × Unused id s.dispatcher)
          (λ id. (id ≤ last s.database) × Unused id w) s.given
          (λ id (low, u).
            (low, λ b f e same. let (f', e', p₁) = shrinks b f e in u b f' e' (p₁ ∙ same)))
          o.unused;
    different = o.different;
  }

  -- The waiting thread has its id for itself.
  Unshared-begins :
      (s : Running p) (id : ℕ) (rest : List ℕ)
      → Unshared p last s
      → Taken id s.given rest
      → Unshared p last (record s { dispatcher = (begin_wait id s.dispatcher).1; given = rest })
  Unshared-begins s id rest o t =
      let w' = (begin_wait id s.dispatcher).1 in
      let ((low, unused), others) =
        Taken-All (λ i. (i ≤ last s.database) × Unused i s.dispatcher) id s.given rest t o.unused in
      let (apart, different) = Taken-Different id s.given rest t o.different in
      record {
        inv = begin_wait-Inv id s.dispatcher o.inv;
        given = λ a f e. elim (begin_wait_frames id s.dispatcher a f e) [
          | inl old ↦ o.given a f old
          | inr (_, same) ↦ omega (arith, low, same)
        ];
        alone = λ a b f h e k same. elim (begin_wait_frames id s.dispatcher a f e) [
          | inl old ↦ elim (begin_wait_frames id s.dispatcher b h k) [
            | inl old' ↦ o.alone a b f h old old' same
            | inr (_, new) ↦ absurd (unused a f old (same ∙ new))
          ]
          | inr (at, new) ↦ elim (begin_wait_frames id s.dispatcher b h k) [
            | inl old' ↦ absurd (unused b h old' (sym same ∙ new))
            | inr (at', _) ↦ at ∙ sym at'
          ]
        ];
        unused =
            All-implies (λ j. (j ≢ id) × ((j ≤ last s.database) × Unused j s.dispatcher))
              (λ j. (j ≤ last s.database) × Unused j w') rest
              (λ j (ne, (bound, free)). (
                bound,
                λ b f e same. elim (begin_wait_frames id s.dispatcher b f e) [
                  | inl old ↦ free b f old same
                  | inr (_, new) ↦ ne (sym same ∙ new)
                ],
              ))
              (All-both (λ j. j ≢ id) (λ j. (j ≤ last s.database) × Unused j s.dispatcher) rest
                apart others);
        different = different;
      }

  module _ (q : Sequence p last) where
    Unshared-generates :
        (c : Connection) (s : Running p) (id : ℕ) (d : p.State)
        → Unshared p last s
        → generate_request_id p c s.database ≡ (ok id, d)
        → Unshared p last (record s { database = d; given = id ∷ s.given })
    Unshared-generates c s id d o e =
        let (above, within) = generate_request_id-next p last q c s.database d id e in
        record {
          inv = o.inv;
          given = λ a f h. let low = o.given a f h in omega (arith, low, above, within);
          alone = o.alone;
          unused = (
            (
              within,
              λ b f h same. let low = o.given b f h in absurd (omega (arith, low, above, same)),
            ),
            All-implies (λ j. (j ≤ last s.database) × Unused j s.dispatcher)
                (λ j. (j ≤ last d) × Unused j s.dispatcher) s.given
                (λ j (low, u). (omega (arith, low, above, within), u)) o.unused,
          );
          different = (
            All-implies (λ j. (j ≤ last s.database) × Unused j s.dispatcher) (λ j. j ≢ id) s.given
                (λ j (low, u) same. absurd (omega (arith, low, above, same))) o.unused,
            o.different,
          );
        }

    Unshared-works :
        (s : Running p) (d : p.State)
        → Unshared p last s
        → last s.database ≤ last d
        → Unshared p last (record s { database = d })
    Unshared-works s d o kept = record {
      inv = o.inv;
      given = λ a f h. let low = o.given a f h in omega (arith, low, kept);
      alone = o.alone;
      unused =
          All-implies (λ j. (j ≤ last s.database) × Unused j s.dispatcher)
            (λ j. (j ≤ last d) × Unused j s.dispatcher) s.given
            (λ j (low, u). (omega (arith, low, kept), u)) o.unused;
      different = o.different;
    }

    Step-Unshared : {s t : Running p} → Step p last s t → Unshared p last s → Unshared p last t
    Step-Unshared (generates c s id d e) o = Unshared-generates c s id d o e
    Step-Unshared (begins_wait s id rest k) o = Unshared-begins s id rest o k
    Step-Unshared (ends_wait s a) o =
        Unshared-Shrinks s (end_wait a s.dispatcher).1 o (end_wait-Inv a s.dispatcher o.inv)
          (end_wait-Shrinks a s.dispatcher)
    Step-Unshared (works s d kept) o = Unshared-works s d o kept
    Step-Unshared (delivers s j status w e) o =
        let (w', e', v) = dispatch-Inv j status s.dispatcher o.inv in
        let same : w' ≡ w = cc in
        Unshared-Shrinks s w o (subst Inv same v) (dispatch-Shrinks j status s.dispatcher w o.inv e)

    onward : {s t : Running p} → Reach p last s t → Unshared p last s → Unshared p last t
    onward (stays s) o = o
    onward (follows s t u k r) o = onward r (Step-Unshared k o)

    start-Unshared : (d : p.State) → Unshared p last (start p last d)
    unfolding lookup
    start-Unshared d = record {
      inv = init-Inv;
      given = λ a f e. absurd (cc);
      alone = λ a b f h e k same. absurd (cc);
      unused = tt;
      different = tt;
    }

    -- However the threads interleave, from a server that has just started: no two threads that wait have
    -- the same id, none waits for an id that the sequence did not give, and a thread that has
    -- generated its id finds it unused. The database keeps to the sequence.
    pub Reach-Unshared :
        (d : p.State) (t : Running p) → Reach p last (start p last d) t → Unshared p last t
    Reach-Unshared d t r = onward r (start-Unshared d)
