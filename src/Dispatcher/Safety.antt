-- ===== src/Dispatcher/Safety.antt =====
-- Every pointer in the dispatcher's map leads to a live frame, whatever the schedule.
use management_sensors.Prelude.{
  ℕ, suc, ◌≤◌, ◌<◌, ◌≡◌, refl, inl, inr, Option, none, some, true, List, [], ◌∷◌, arith, leb, ◌==◌,
  length, safe, Bool-cases, Option-cases,
}
use management_sensors.Prelude.Map.{
  lookup, insert, erase, lookup-insert, lookup-erase, length-insert, length-erase,
}
use management_sensors.Dispatcher.{
  ResponseStatus, Frame, World, Section, begins, ends, dispatches, init, max_pending, new_context,
  begin_wait, end_frame, end_wait, deliver, dispatch, step, run,
}

-- The map holds at most 500 entries; each leads to the live frame of a thread that waits for that
-- very id; and no live frame has an address that is still to be used.
pub record Inv (w : World) : Type 0 where
  pub bounded : length w.pending_requests ≤ max_pending
  pub live :
      (id a : ℕ)
      → lookup id w.pending_requests ≡ some a
      → (f : Frame) × (lookup a w.frames ≡ some f) × (f.id ≡ id)
  pub fresh : (a : ℕ) → w.next_frame ≤ a → lookup a w.frames ≡ none

pub init-Inv : Inv init
unfolding lookup
init-Inv = record {
  bounded = omega arith;
  live = λ id a h. absurd (ground arith);
  fresh = λ a h. refl;
}

-- What `begin_wait` does when the map is not full.
abbrev pub register : ℕ → World → World
register id w = record w {
  pending_requests = insert id w.next_frame w.pending_requests;
  frames = insert w.next_frame (record { id = id; ctx = new_context }) w.frames;
  next_frame = suc w.next_frame;
}

register-live :
    (id : ℕ) (w : World)
    → Inv w
    → (j a : ℕ) → lookup j (register id w).pending_requests ≡ some a
    → (f : Frame) × (lookup a (register id w).frames ≡ some f) × (f.id ≡ j)
register-live id w v j a h = elim (Bool-cases (id == j)) [
  | inl e ↦ (
    record { id = id; ctx = new_context },
    ground (
      arith,
      lookup-insert id j w.next_frame w.pending_requests,
      lookup-insert w.next_frame a (record { id = id; ctx = new_context }) w.frames,
    ),
    ground arith,
  )
  | inr e ↦
      let (f, p, q) =
        v.live j a (ground (arith, lookup-insert id j w.next_frame w.pending_requests)) in
      (
        f,
        ground (
          arith,
          p,
          v.fresh w.next_frame,
          lookup-insert w.next_frame a (record { id = id; ctx = new_context }) w.frames,
        ),
        q,
      )
]

pub register-Inv :
    (id : ℕ) (w : World) → length w.pending_requests < max_pending → Inv w → Inv (register id w)
register-Inv id w room v = record {
  bounded = omega (arith, length-insert id w.next_frame w.pending_requests);
  live = register-live id w v;
  fresh = λ a h. ground (
    arith,
    v.fresh a,
    lookup-insert w.next_frame a (record { id = id; ctx = new_context }) w.frames,
  );
}

pub begin_wait-Inv : (id : ℕ) (w : World) → Inv w → Inv (begin_wait id w).1
unfolding begin_wait
begin_wait-Inv id w v = elim (Bool-cases (leb max_pending (length w.pending_requests))) [
  | inl full ↦ rw full v
  | inr room ↦ rw room (register-Inv id w (ground arith) v)
]

-- What `end_wait` does to the frame that it finds.
abbrev pub unregister : ℕ → Frame → World → World
unregister a f w = record w {
  pending_requests = erase f.id w.pending_requests;
  frames = erase a w.frames;
}

unregister-live :
    (a : ℕ) (f : Frame) (w : World)
    → lookup a w.frames ≡ some f
    → Inv w
    → (j b : ℕ) → lookup j (unregister a f w).pending_requests ≡ some b
    → (g : Frame) × (lookup b (unregister a f w).frames ≡ some g) × (g.id ≡ j)
unregister-live a f w e v j b h =
    let (g, p, q) = v.live j b (ground (arith, lookup-erase f.id j w.pending_requests)) in
    (
      g,
      ground (arith, p, q, e, lookup-erase f.id j w.pending_requests, lookup-erase a b w.frames),
      q,
    )

end_frame-Inv :
    (a : ℕ) (o : Option Frame) (w : World) → lookup a w.frames ≡ o → Inv w → Inv (end_frame a o w).1
unfolding end_frame
end_frame-Inv a none w e v = v
end_frame-Inv a (some f) w e v = record {
  bounded = omega (arith, v.bounded, length-erase f.id w.pending_requests);
  live = unregister-live a f w e v;
  fresh = λ b h. ground (arith, v.fresh b, lookup-erase a b w.frames);
}

pub end_wait-Inv : (a : ℕ) (w : World) → Inv w → Inv (end_wait a w).1
unfolding end_wait
end_wait-Inv a w v = end_frame-Inv a (lookup a w.frames) w refl v

-- The frame after `dispatch` has written through the pointer.
abbrev pub answered : ResponseStatus → Frame → Frame
answered status f = record f { ctx = record { status = status; ready = true } }

deliver-live :
    (a : ℕ) (f : Frame) (status : ResponseStatus) (w : World)
    → lookup a w.frames ≡ some f
    → Inv w
    → (j b : ℕ) → lookup j w.pending_requests ≡ some b
    → (g : Frame) × (lookup b (insert a (answered status f) w.frames) ≡ some g) × (g.id ≡ j)
deliver-live a f status w e v j b h =
    let (g, p, q) = v.live j b h in
    elim (Bool-cases (a == b)) [
      | inl same ↦ (
        answered status f,
        ground (arith, lookup-insert a b (answered status f) w.frames),
        ground (arith, p, q, e),
      )
      | inr other ↦ (g, ground (arith, p, lookup-insert a b (answered status f) w.frames), q)
    ]

-- A dispatch never follows a dangling pointer, and keeps the invariant.
pub dispatch-Inv :
    (id : ℕ) (status : ResponseStatus) (w : World)
    → Inv w
    → (w' : World) × (dispatch id status w ≡ safe w') × Inv w'
unfolding dispatch
dispatch-Inv id status w v = elim (Option-cases (lookup id w.pending_requests)) [
  | inl absent ↦ (w, rw (absent, dispatch), v)
  | inr (a, e) ↦
      let (f, p, q) = v.live id a e in
      (
        record w { frames = insert a (answered status f) w.frames },
        rw (e, dispatch, p, deliver),
        record {
          bounded = v.bounded;
          live = deliver-live a f status w p v;
          fresh = λ b h.
              ground
                (arith, v.fresh a, v.fresh b, p, lookup-insert a b (answered status f) w.frames);
        },
      )
]

pub step-Inv : (e : Section) (w : World) → Inv w → (w' : World) × (step e w ≡ safe w') × Inv w'
unfolding step
step-Inv (begins id) w v = ((begin_wait id w).1, refl, begin_wait-Inv id w v)
step-Inv (ends a) w v = ((end_wait a w).1, refl, end_wait-Inv a w v)
step-Inv (dispatches id status) w v = dispatch-Inv id status w v

-- From a state that satisfies the invariant, every schedule runs without a fault, and the invariant
-- holds at its end.
pub run-Inv : (es : List Section) (w : World) → Inv w → (w' : World) × (run es w ≡ safe w') × Inv w'
unfolding run
run-Inv [] w v = (w, refl, v)
run-Inv (e ∷ es) w v =
    let (w', p, v') = step-Inv e w v in let (w'', q, v'') = run-Inv es w' v' in (w'', rw p q, v'')
