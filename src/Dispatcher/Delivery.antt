-- ===== src/Dispatcher/Delivery.antt =====
-- What a thread that waits for a request id is told, under every schedule of the other threads.
use management_sensors.Prelude.{
  ℕ, ◌<◌, ◌≡◌, ◌≢◌, refl, subst, inl, inr, Option, none, some, true, List, [], ◌∷◌, arith, leb,
  ◌==◌, if◌then◌else◌, length, Safe, safe, and_then, Bool-cases, Option-cases, All,
}
use management_sensors.Prelude.Map.{lookup, insert, erase, lookup-insert, lookup-erase}
use management_sensors.Dispatcher.{
  ResponseStatus, timeout, RequestContext, Frame, World, Section, begins, ends, dispatches,
  max_pending, new_context, begin_wait, final_status, end_frame, end_wait, deliver, dispatch, step,
  run, finish, wait_for_response,
}
use management_sensors.Dispatcher.Safety.{Inv, answered, step-Inv, register, register-Inv}

-- The thread with frame `a` waits for `id`, alone, and `c` is what it has been told.
record Waits (id a : ℕ) (c : RequestContext) (w : World) : Type 0 where
  frame : lookup a w.frames ≡ some (record { id = id; ctx = c })
  entry : lookup id w.pending_requests ≡ some a
  only : (b : ℕ) (f : Frame) → lookup b w.frames ≡ some f → f.id ≡ id → b ≡ a

-- A section of another thread, which serves another request or delivers an answer.
abbrev pub Foreign : ℕ → ℕ → Section → Type 0
Foreign id a (begins j) = j ≢ id
Foreign id a (ends b) = b ≢ a
Foreign id a (dispatches j status) = Unit

-- The effect of a section on what a thread that waits for `id` has been told.
abbrev pub told : ℕ → Section → RequestContext → RequestContext
told id (begins j) c = c
told id (ends b) c = c
told id (dispatches j s) c = if j == id then record { status = s; ready = true } else c

-- The status of the last delivery to `id`, or a default.
abbrev pub last_answer : ℕ → List Section → ResponseStatus → ResponseStatus
last_answer id [] s = s
last_answer id (begins j ∷ es) s = last_answer id es s
last_answer id (ends b ∷ es) s = last_answer id es s
last_answer id (dispatches j t ∷ es) s = last_answer id es (if j == id then t else s)

module _ (id a : ℕ) (c : RequestContext) (w : World) (v : Inv w) (o : Waits id a c w) where
  begin-Waits : (j : ℕ) → j ≢ id → Waits id a c (begin_wait j w).1
  unfolding begin_wait
  begin-Waits j ne = elim (Bool-cases (leb max_pending (length w.pending_requests))) [
    | inl full ↦ rw full o
    | inr room ↦ rw room (record {
      frame = ground (
        arith,
        o.frame,
        v.fresh w.next_frame,
        lookup-insert w.next_frame a (record { id = j; ctx = new_context }) w.frames,
      );
      entry = ground (arith, o.entry, lookup-insert j id w.next_frame w.pending_requests);
      only = λ b f p q. ground (
        arith,
        o.only b f,
        lookup-insert w.next_frame b (record { id = j; ctx = new_context }) w.frames,
      );
    })
  ]

  end-Waits : (b : ℕ) → b ≢ a → Waits id a c (end_wait b w).1
  unfolding end_wait
  end-Waits b ne = elim (Option-cases (lookup b w.frames)) [
    | inl absent ↦ rw (absent, end_frame) o
    | inr (f, e) ↦
        rw (e, end_frame)
          (record {
            frame = ground (arith, o.frame, lookup-erase b a w.frames);
            entry = ground (arith, o.entry, o.only b f e, lookup-erase f.id id w.pending_requests);
            only = λ d g p q. ground (arith, o.only d g, lookup-erase b d w.frames);
          })
  ]

  written-Waits :
      (j b : ℕ) (g : Frame) (s : ResponseStatus)
      → lookup j w.pending_requests ≡ some b
      → lookup b w.frames ≡ some g
      → g.id ≡ j
      → Waits id a
          (told id (dispatches j s) c)
          (record w { frames = insert b (answered s g) w.frames })
  written-Waits j b g s e p q = record {
    frame = ground (arith, o.frame, o.entry, e, p, q, lookup-insert b a (answered s g) w.frames);
    entry = o.entry;
    only = λ d f r t.
        ground (arith, o.only d f, o.only b g p, lookup-insert b d (answered s g) w.frames);
  }

  dispatch-Waits :
      (j : ℕ) (s : ResponseStatus) (w' : World)
      → dispatch j s w ≡ safe w'
      → Waits id a (told id (dispatches j s) c) w'
  unfolding dispatch deliver
  dispatch-Waits j s w' h = elim (Option-cases (lookup j w.pending_requests)) [
    | inl absent ↦
        let same : w ≡ w' = ground (arith, absent) in
        let kept : told id (dispatches j s) c ≡ c = ground (arith, absent, o.entry) in
        rw kept (subst (Waits id a c) same o)
    | inr (b, e) ↦
        let (g, p, q) = v.live j b e in
        let moved : record w { frames = insert b (answered s g) w.frames } ≡ w' =
          ground (arith, e, p) in
        subst (Waits id a (told id (dispatches j s) c)) moved (written-Waits j b g s e p q)
  ]

step-Waits :
    (id a : ℕ) (c : RequestContext) (w : World)
    → Inv w
    → Waits id a c w
    → (e : Section) → Foreign id a e
    → (w' : World) → step e w ≡ safe w'
    → Waits id a (told id e c) w'
unfolding step
step-Waits id a c w v o (begins j) f w' h =
    subst (Waits id a c) (ground arith) (begin-Waits id a c w v o j f)
step-Waits id a c w v o (ends b) f w' h =
    subst (Waits id a c) (ground arith) (end-Waits id a c w v o b f)
step-Waits id a c w v o (dispatches j s) f w' h = dispatch-Waits id a c w v o j s w' h

-- The status that the thread returns for what it has been told, `final_status` by another road.
told-last :
    (id : ℕ) (e : Section) (es : List Section) (c : RequestContext)
    → last_answer id es (final_status (told id e c)) ≡ last_answer id (e ∷ es) (final_status c)
unfolding final_status
told-last id (begins j) es c = refl
told-last id (ends b) es c = refl
told-last id (dispatches j s) es c = elim (Bool-cases (j == id)) [
  | inl hit ↦ rw hit
  | inr miss ↦ rw miss
]

-- The thread returns `r`, and leaves neither an entry for its id nor its frame behind.
abbrev pub Returns : ℕ → ℕ → ResponseStatus → Safe (Option ResponseStatus × World) → Type 0
Returns id a r o =
    (w' : World) × (o ≡ safe (some r, w'))
    × (lookup id w'.pending_requests ≡ none)
    × (lookup a w'.frames ≡ none)

end-Returns :
    (id a : ℕ) (c : RequestContext) (w : World)
    → Waits id a c w
    → Returns id a (final_status c) (finish a w)
unfolding finish end_wait
end-Returns id a c w o = (
  record w { pending_requests = erase id w.pending_requests; frames = erase a w.frames },
  rw (o.frame, end_frame),
  ground (arith, lookup-erase id id w.pending_requests),
  ground (arith, lookup-erase a a w.frames),
)

run-Returns :
    (id a : ℕ) (es : List Section) (c : RequestContext) (w : World)
    → Inv w
    → Waits id a c w
    → All (Foreign id a) es
    → Returns id a (last_answer id es (final_status c)) (and_then (run es w) (finish a))
unfolding run
run-Returns id a [] c w v o f = end-Returns id a c w o
run-Returns id a (e ∷ es) c w v o (f, fs) =
    let (w', p, v') = step-Inv e w v in
    let rest = run-Returns id a es (told id e c) w' v' (step-Waits id a c w v o e f w' p) fs in
    rw p (rw (← told-last id e es c) rest)

-- No live frame waits for this id.
abbrev pub Unused : ℕ → World → Type 0
Unused id w = (b : ℕ) (f : Frame) → lookup b w.frames ≡ some f → f.id ≢ id

register-Waits :
    (id : ℕ) (w : World) → Unused id w → Waits id w.next_frame new_context (register id w)
register-Waits id w u = record {
  frame = ground (
    arith,
    lookup-insert w.next_frame w.next_frame (record { id = id; ctx = new_context }) w.frames,
  );
  entry = ground (arith, lookup-insert id id w.next_frame w.pending_requests);
  only = λ b f p q.
      ground (
        arith,
        u b f,
        lookup-insert w.next_frame b (record { id = id; ctx = new_context }) w.frames,
      );
}

pub begin_wait_room :
    (id : ℕ) (w : World)
    → length w.pending_requests < max_pending
    → begin_wait id w ≡ (some w.next_frame, register id w)
unfolding begin_wait
begin_wait_room id w room = ground arith

-- A thread that waits for an id which no other thread uses, while the map has room, returns the
-- status of the last delivery to its id, or TIMEOUT if there was none, under every schedule of the
-- other threads; and it leaves neither its map entry nor its frame behind.
pub wait_for_response-Returns :
    (id : ℕ) (es : List Section) (w : World)
    → Inv w
    → length w.pending_requests < max_pending
    → Unused id w
    → All (Foreign id w.next_frame) es
    → Returns id w.next_frame (last_answer id es timeout) (wait_for_response id es w)
unfolding wait_for_response final_status
wait_for_response-Returns id es w v room u f = rw (begin_wait_room id w room) (
    run-Returns id w.next_frame es new_context (register id w) (register-Inv id w room v)
      (register-Waits id w u) f)
