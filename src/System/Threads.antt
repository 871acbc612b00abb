-- ===== src/System/Threads.antt =====
-- The threads of the server that serve configuration requests, at once: each generates an id, with
-- libs/db/DatabaseManager.cpp, and then waits for it, with server/src/dispatcher/Dispatcher.cpp.
pub mod Alone
use management_sensors.Prelude.{
  ℕ, ◌≤◌, ◌≡◌, ◌≢◌, sym, subst, ◌∙◌, inl, inr, some, List, [], ◌∷◌, ok, safe, arith, All,
  All-implies, All-both,
}
use management_sensors.Prelude.Map.{lookup}
use management_sensors.Dispatcher.{
  Frame, World, ResponseStatus, init, begin_wait, end_wait, dispatch,
}
use management_sensors.Dispatcher.Safety.{Inv, init-Inv, begin_wait-Inv, end_wait-Inv, dispatch-Inv}
use management_sensors.Dispatcher.Frames.{
  Shrinks, end_wait-Shrinks, dispatch-Shrinks, begin_wait_frames,
}
use management_sensors.Dispatcher.Delivery.{Unused}
use management_sensors.Db.{Postgres, Connection}
use management_sensors.Db.Queries.{generate_request_id}
use management_sensors.Db.Queries.Ids.{Sequence, generate_request_id-next}

-- The dispatcher, the database, and the ids of threads that do not wait yet.
pub record Running (p : Postgres) : Type 0 where
  pub dispatcher : World
  pub database : p.State
  pub given : List ℕ

-- `id` is one of a list, and `rest` are the others.
pub data Taken (id : ℕ) : List ℕ → List ℕ → Type 0 where
  first : (rest : List ℕ) → Taken id (id ∷ rest) rest
  later : (j : ℕ) (ids rest : List ℕ) → Taken id ids rest → Taken id (j ∷ ids) (j ∷ rest)

-- No two of the ids are the same.
abbrev pub Different : List ℕ → Type 0
Different [] = Unit
Different (id ∷ ids) = All (λ j. j ≢ id) ids × Different ids

module _ (p : Postgres) (last : p.State → ℕ) where
  -- A step of some thread: it generates its id, or it begins to wait for it, or its wait ends; or the
  -- database does other work, which takes no number back, or the listener delivers an answer.
  pub data Step : Running p → Running p → Type 0 where
    generates :
        (c : Connection) (s : Running p) (id : ℕ) (d : p.State)
        → generate_request_id p c s.database ≡ (ok id, d)
        → Step s (record s { database = d; given = id ∷ s.given })
    begins_wait :
        (s : Running p) (id : ℕ) (rest : List ℕ)
        → Taken id s.given rest
        → Step s (record s { dispatcher = (begin_wait id s.dispatcher).1; given = rest })
    ends_wait :
        (s : Running p) (a : ℕ) → Step s (record s { dispatcher = (end_wait a s.dispatcher).1 })
    works :
        (s : Running p) (d : p.State)
        → last s.database ≤ last d
        → Step s (record s { database = d })
    delivers :
        (s : Running p) (j : ℕ) (status : ResponseStatus) (w : World)
        → dispatch j status s.dispatcher ≡ safe w
        → Step s (record s { dispatcher = w })

  pub data Reach : Running p → Running p → Type 0 where
    stays : (s : Running p) → Reach s s
    follows : (s t u : Running p) → Step s t → Reach t u → Reach s u

  abbrev pub start : p.State → Running p
  start d = record { dispatcher = init; database = d; given = [] }

  -- Every live frame and every given id has a number that the sequence gave, and no two of them the same.
  pub record Unshared (s : Running p) : Type 0 where
    pub inv : Inv s.dispatcher
    pub given : (a : ℕ) (f : Frame) → lookup a s.dispatcher.frames ≡ some f → f.id ≤ last s.database
    pub alone :
        (a b : ℕ) (f h : Frame)
        → lookup a s.dispatcher.frames ≡ some f
        → lookup b s.dispatcher.frames ≡ some h
        → f.id ≡ h.id
        → a ≡ b
    pub unused : All (λ id. (id ≤ last s.database) × Unused id s.dispatcher) s.given
    pub different : Different s.given
