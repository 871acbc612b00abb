-- ===== src/Dispatcher.antt =====
-- server/src/dispatcher/Dispatcher.{hpp,cpp}: threads that wait for the answer to a request, and the
-- thread that delivers it. `map_mtx` makes three critical sections atomic: the part of
-- `wait_for_response` before `cv.wait_for` blocks, the part after it, and `dispatch`. A schedule is a
-- list of such sections. A `RequestContext` lives on the stack of the waiting thread: it is a frame
-- of `frames`, which names are never used again, so that a pointer to a frame that is gone is seen.
-- Logging is left out.
pub mod Safety
pub mod Delivery
pub mod Frames
pub mod Limits
use management_sensors.Prelude.{
  ℕ, suc, Text, codes, Option, none, some, Bool, true, false, List, [], ◌∷◌, if◌then◌else◌, leb,
  length, Safe, safe, fault, and_then,
}
use management_sensors.Prelude.Map.{Map, lookup, insert, erase}

pub data ResponseStatus : Type 0 where
  pending success timeout db_error system_full : ResponseStatus

-- struct Dispatcher::RequestContext; the condition variable and the start time hold no data that
-- the program reads.
pub record RequestContext : Type 0 where
  pub status : ResponseStatus
  pub ready : Bool

-- The stack frame of a call of `wait_for_response`: its argument and its local `ctx`.
pub record Frame : Type 0 where
  pub id : ℕ
  pub ctx : RequestContext

-- The dispatcher's map, from request ids to the addresses of contexts, and the frames that are live.
pub record World : Type 0 where
  pub pending_requests : Map ℕ
  pub frames : Map Frame
  pub next_frame : ℕ

abbrev pub max_pending : ℕ
max_pending = 500

abbrev pub init : World
init = record { pending_requests = []; frames = []; next_frame = 0 }

abbrev pub new_context : RequestContext
new_context = record { status = pending; ready = false }

-- `Dispatcher::status_to_string`
unfoldable pub status_to_string : ResponseStatus → Text
status_to_string success = codes "SUCCESS"
status_to_string timeout = codes "ERROR: Request Timed Out"
status_to_string db_error = codes "ERROR: Database Failure"
status_to_string system_full = codes "ERROR: Maximum Pending Requests Reached"
status_to_string pending = codes "PENDING"

-- `wait_for_response` up to the blocking call: the frame's address, or none if the map is full.
unfoldable pub begin_wait : ℕ → World → Option ℕ × World
begin_wait id w = if leb max_pending (length w.pending_requests) then (none, w) else (
  some w.next_frame,
  record w {
    pending_requests = insert id w.next_frame w.pending_requests;
    frames = insert w.next_frame (record { id = id; ctx = new_context }) w.frames;
    next_frame = suc w.next_frame;
  },
)

-- `triggered ? ctx.status : TIMEOUT`; `cv.wait_for` returns `ctx.ready`, also at the time limit.
unfoldable pub final_status : RequestContext → ResponseStatus
final_status c = if c.ready then c.status else timeout

end_frame : ℕ → Option Frame → World → Option ResponseStatus × World
unfolding final_status
end_frame a none w = (none, w)
end_frame a (some f) w = (
  some (final_status f.ctx),
  record w { pending_requests = erase f.id w.pending_requests; frames = erase a w.frames },
)

-- `wait_for_response` from the return of the blocking call on, in the frame at an address.
unfoldable pub end_wait : ℕ → World → Option ResponseStatus × World
unfolding end_frame
end_wait a w = end_frame a (lookup a w.frames) w

-- The writes through the pointer that the map holds.
deliver : ℕ → Option Frame → ResponseStatus → World → Safe World
deliver a none status w = fault
deliver a (some f) status w = safe (record w {
  frames = insert a (record f { ctx = record { status = status; ready = true } }) w.frames;
})

unfoldable pub dispatch : ℕ → ResponseStatus → World → Safe World
unfolding deliver
dispatch id status w = elim (lookup id w.pending_requests) [
  | none ↦ safe w
  | some a ↦ deliver a (lookup a w.frames) status w
]

-- A critical section of some thread.
pub data Section : Type 0 where
  begins : ℕ → Section
  ends : ℕ → Section
  dispatches : ℕ → ResponseStatus → Section

unfoldable pub step : Section → World → Safe World
step (begins id) w = safe (begin_wait id w).1
step (ends a) w = safe (end_wait a w).1
step (dispatches id status) w = dispatch id status w

unfoldable pub run : List Section → World → Safe World
unfolding step
run [] w = safe w
run (e ∷ es) w = and_then (step e w) (run es)

finish : ℕ → World → Safe (Option ResponseStatus × World)
finish a w = safe (end_wait a w)

-- The call blocks, while the other threads run the schedule, unless the map was full.
blocked : List Section → Option ℕ × World → Safe (Option ResponseStatus × World)
unfolding finish
blocked es (none, w) = safe (some system_full, w)
blocked es (some a, w) = and_then (run es w) (finish a)

-- `wait_for_response` while the other threads run the schedule `es`.
unfoldable pub wait_for_response : ℕ → List Section → World → Safe (Option ResponseStatus × World)
unfolding blocked
wait_for_response id es w = blocked es (begin_wait id w)
