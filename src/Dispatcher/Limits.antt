-- ===== src/Dispatcher/Limits.antt =====
-- The limits of the dispatcher of server/src/dispatcher/Dispatcher.cpp: the bound on its map, and two
-- waits for one id.
use management_sensors.Prelude.{
  suc, ap, ◌∙◌, ℕ, ◌+◌, ◌↔◌, ◌≤◌, ◌<◌, ◌≡◌, subst, none, some, List, [], ◌∷◌, arith, length, safe,
}
use management_sensors.Prelude.Map.{
  lookup, insert, lookup-insert, lookup-erase, erase, length-insert,
}
use management_sensors.Dispatcher.{
  ResponseStatus, timeout, Frame, World, Section, begins, dispatches, init, max_pending,
  new_context, begin_wait, final_status, end_frame, end_wait, deliver, dispatch, step, run, finish,
  wait_for_response,
}
use management_sensors.Dispatcher.Safety.{Inv, init-Inv, answered, run-Inv, register}
use management_sensors.Dispatcher.Delivery.{begin_wait_room}

-- After any schedule from the start, a new wait is refused exactly when 500 requests are pending.
pub full_iff :
    (id : ℕ) (es : List Section) (w : World)
    → run es init ≡ safe w
    → ((begin_wait id w).0 ≡ none) ↔ (length w.pending_requests ≡ max_pending)
unfolding begin_wait
full_iff id es w h =
    let (w', p, v) = run-Inv es init init-Inv in
    let same : w' ≡ w = ground (arith, p) in
    let bound : length w.pending_requests ≤ max_pending =
      subst (λ x. length x.pending_requests ≤ max_pending) same v.bounded in
    (λ e. ground arith, λ e. ground arith)

-- The map and the frames after the second of two threads has begun to wait for one id.
dispatch-second :
    (id : ℕ) (s : ResponseStatus) (w : World)
    → dispatch id s (register id w)
      ≡ safe (record (register id w) {
        frames =
            insert w.next_frame
              (answered s (record { id = id; ctx = new_context }))
              (register id w).frames;
      })
unfolding dispatch deliver
dispatch-second id s w = ground (
  arith,
  lookup-insert id id w.next_frame w.pending_requests,
  lookup-insert w.next_frame w.next_frame (record { id = id; ctx = new_context }) w.frames,
)

finish_found :
    (a : ℕ) (f : Frame) (w : World)
    → lookup a w.frames ≡ some f
    → finish a w ≡ safe (some (final_status f.ctx), (end_wait a w).1)
unfolding finish end_wait
finish_found a f w e = rw (e, end_frame)

end_wait_found :
    (a : ℕ) (f : Frame) (w : World)
    → lookup a w.frames ≡ some f
    → end_wait a w ≡ (
      some (final_status f.ctx),
      record w { pending_requests = erase f.id w.pending_requests; frames = erase a w.frames },
    )
unfolding end_wait
end_wait_found a f w e = rw (e, end_frame)

-- Two threads that wait for one id, of which a status is delivered to while both wait, where there is
-- room for both and the dispatcher's invariant holds: the first returns TIMEOUT although the status was
-- delivered while it waited, and the second, when it ends after that, returns the status.
pub shadowed :
    (id : ℕ) (s : ResponseStatus) (w : World)
    → Inv w
    → length w.pending_requests + 1 < max_pending
    → (w' : World) × (wait_for_response id (begins id ∷ dispatches id s ∷ []) w
        ≡ safe (some timeout, w'))
      × ((end_wait (suc w.next_frame) w').0 ≡ some s)
unfolding wait_for_response run step final_status
shadowed id s w v room =
    let w₁ : World = register id w in
    let w₂ : World = register id w₁ in
    let frame : Frame = record { id = id; ctx = new_context } in
    let w₃ : World = record w₂ { frames = insert w₁.next_frame (answered s frame) w₂.frames } in
    let kept : lookup w.next_frame w₃.frames ≡ some frame = ground (
      arith,
      lookup-insert w₁.next_frame w.next_frame (answered s frame) w₂.frames,
      lookup-insert w₁.next_frame w.next_frame frame w₁.frames,
      lookup-insert w.next_frame w.next_frame frame w.frames,
    ) in
    let w' : World = (end_wait w.next_frame w₃).1 in
    let ended = ap (λ r. r.1.frames) (end_wait_found w.next_frame frame w₃ kept) in
    let second : lookup (suc w.next_frame) w'.frames ≡ some (answered s frame) =
      ap (lookup (suc w.next_frame)) ended
      ∙ ground (
        arith,
        lookup-erase w.next_frame (suc w.next_frame) w₃.frames,
        lookup-insert w₁.next_frame (suc w.next_frame) (answered s frame) w₂.frames,
      ) in
    (
      w',
      rw (begin_wait_room id w (omega arith)) (
          rw
            (
              begin_wait_room id w₁
                  (omega (arith, length-insert id w.next_frame w.pending_requests)),
              step,
            )
            (rw (dispatch-second id s w₁) (finish_found w.next_frame frame w₃ kept))),
      ap (λ r. r.0) (end_wait_found (suc w.next_frame) (answered s frame) w' second),
    )
