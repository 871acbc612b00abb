-- ===== src/Dispatcher/Frames.antt =====
-- The frames that wait, before and after a critical section of server/src/dispatcher/Dispatcher.cpp.
use management_sensors.Prelude.{
  ℕ, ◌≡◌, ◌⊎◌, refl, sym, ap, subst, inl, inr, some, safe, arith, leb, ◌==◌, ==_iff, length,
  Bool-cases, Option-cases,
}
use management_sensors.Prelude.Map.{lookup, insert, lookup-insert, lookup-erase}
use management_sensors.Dispatcher.{
  ResponseStatus, Frame, World, max_pending, new_context, begin_wait, end_frame, end_wait, deliver,
  dispatch,
}
use management_sensors.Dispatcher.Safety.{Inv, answered}

-- Every frame of the later world waits for the id for which it waited in the earlier one.
abbrev pub Shrinks : World → World → Type 0
Shrinks w w' =
    (a : ℕ) (f : Frame)
    → lookup a w'.frames ≡ some f
    → (h : Frame) × (lookup a w.frames ≡ some h) × (h.id ≡ f.id)

pub end_wait-Shrinks : (a : ℕ) (w : World) → Shrinks w (end_wait a w).1
unfolding end_wait
end_wait-Shrinks a w b f h = elim (Option-cases (lookup a w.frames)) [
  | inl absent ↦ (f, ground (arith, absent, end_frame, h), refl)
  | inr (g, e) ↦ (f, ground (arith, e, end_frame, h, lookup-erase a b w.frames), refl)
]

written-Shrinks :
    (a : ℕ) (g : Frame) (s : ResponseStatus) (w : World)
    → lookup a w.frames ≡ some g
    → Shrinks w (record w { frames = insert a (answered s g) w.frames })
written-Shrinks a g s w e b f h = elim (Bool-cases (a == b)) [
  | inl same ↦
      let here : answered s g ≡ f = ground (arith, lookup-insert a b (answered s g) w.frames) in
      (g, subst (λ c. lookup c w.frames ≡ some g) ((==_iff a b).0 same) e, ap (λ x. x.id) here)
  | inr other ↦ (f, ground (arith, lookup-insert a b (answered s g) w.frames), refl)
]

pub dispatch-Shrinks :
    (j : ℕ) (s : ResponseStatus) (w w' : World) → Inv w → dispatch j s w ≡ safe w' → Shrinks w w'
unfolding dispatch deliver
dispatch-Shrinks j s w w' v h = elim (Option-cases (lookup j w.pending_requests)) [
  | inl absent ↦
      let same : w ≡ w' = ground (arith, absent) in subst (Shrinks w) same (λ a f e. (f, e, refl))
  | inr (a, e) ↦
      let (g, p, q) = v.live j a e in
      let moved : record w { frames = insert a (answered s g) w.frames } ≡ w' =
        ground (arith, e, p) in
      subst (Shrinks w) moved (written-Shrinks a g s w p)
]

-- A frame after `begin_wait` is an older one, or the new one, which waits for the id.
pub begin_wait_frames :
    (id : ℕ) (w : World) (a : ℕ) (f : Frame)
    → lookup a (begin_wait id w).1.frames ≡ some f
    → (lookup a w.frames ≡ some f) ⊎ ((a ≡ w.next_frame) × (f.id ≡ id))
unfolding begin_wait
begin_wait_frames id w a f h = elim (Bool-cases (leb max_pending (length w.pending_requests))) [
  | inl full ↦ inl (ground (arith, full, h))
  | inr room ↦
      let new : Frame = record { id = id; ctx = new_context } in
      elim (Bool-cases (w.next_frame == a)) [
        | inl same ↦
            let here : new ≡ f =
              ground (arith, room, h, lookup-insert w.next_frame a new w.frames) in
            inr (sym ((==_iff w.next_frame a).0 same), sym (ap (λ x. x.id) here))
        | inr other ↦ inl (ground (arith, room, h, lookup-insert w.next_frame a new w.frames))
      ]
]
