-- ===== src/Server/Delivery.antt =====
-- How the database's notifications reach the threads that wait: the listener of
-- libs/db/DatabaseManager.cpp with the handlers of server/src/main.cpp, over the dispatcher.
use management_sensors.Prelude.{
  ℕ, ◌≡◌, ◌<◌, ◌∙◌, refl, sym, ap, subst, inl, inr, Bool, true, false, ◌||◌, ◌++◌, Option-cases,
  codes, text_eq, c_str, List, [], ◌∷◌, Option, none, some, Outcome, ok, throw, Safe, safe, fault,
  and_then, if◌then◌else◌, length, ◌==◌, All, All-append, Bool-cases,
}
use management_sensors.Json
use management_sensors.Json.{Value, string, Members, end, find, set, contains, as_string}
use management_sensors.Dispatcher.{
  World, Section, dispatches, ResponseStatus, success, timeout, dispatch, step, run,
  wait_for_response, max_pending,
}
use management_sensors.Dispatcher.Safety.{Inv, run-Inv}
use management_sensors.Dispatcher.Delivery.{
  Returns, Unused, Foreign, last_answer, wait_for_response-Returns,
}
use management_sensors.Db.Listener.{
  Notification, parser_notify, payload_value, find_callback, set_callback, on_notification,
  run_callback, run_listener_loop, after_notification,
}
use management_sensors.Server.{
  read_payload, on_db_config_event_received, on_db_state_event_received, on_db_error_event_received,
  server_callbacks, is_empty, read_channel, config_event, dispatch_payload, returned, read_type,
}

and_then-safe {ℓ κ} :
    {A : Type ℓ} {B : Type κ} (x : Safe A) (f : A → Safe B)
    → and_then x f ≡ and_then (and_then x (λ a. safe a)) f
and_then-safe (safe a) f = refl
and_then-safe fault f = refl

and_then-then {ℓ κ μ} :
    {A : Type ℓ} {B : Type κ} {C : Type μ} (x : Safe A) (f : A → Safe B) (g : B → Safe C)
    (h : A → Safe C)
    → ((a : A) → h a ≡ and_then (f a) g)
    → and_then x h ≡ and_then (and_then x f) g
and_then-then (safe a) f g h e = e a
and_then-then fault f g h e = refl

run-append : (es fs : List Section) (w : World) → run (es ++ fs) w ≡ and_then (run es w) (run fs)
unfolding run
run-append [] fs w = refl
run-append (e ∷ es) fs w =
    and_then-then (step e w) (run es) (run fs) (run (es ++ fs)) (run-append es fs)

-- The delivery of an answer to a request, if there is one.
abbrev pub sections : Option ℕ → List Section
sections none = []
sections (some id) = dispatches id success ∷ []

abbrev pub some_ok : Outcome ℕ → Option ℕ
some_ok (ok id) = some id
some_ok (throw e) = none

if_same {ℓ} : {A : Type ℓ} (b : Bool) (x : A) → (if b then x else x) ≡ x
if_same true x = refl
if_same false x = refl

-- The loop still waits after its notifications.
abbrev alive : World → Safe (Bool × World)
alive w = safe (true, w)

module _ (lib : Json.Library) where
  abbrev payload_of : Notification → Value
  payload_of n = payload_value lib (c_str n.payload) (lib.parse (c_str n.payload))

  -- The request that a notification announces: on "config_events", the id in a payload that is a JSON
  -- object with the five fields, each of its kind.
  abbrev pub announced : Notification → Option ℕ
  announced n =
      if text_eq (codes "config_events") n.channel
      then some_ok (read_payload lib (payload_of n))
      else none

  -- The deliveries that notifications ask for, in their order.
  abbrev pub deliveries : List Notification → List Section
  deliveries [] = []
  deliveries (n ∷ ns) = sections (announced n) ++ deliveries ns

  -- Some of the notifications announce this request.
  abbrev pub announces : ℕ → List Notification → Bool
  announces id [] = false
  announces id (n ∷ ns) = elim (announced n) [
    | none ↦ announces id ns
    | some j ↦ (j == id) || announces id ns
  ]

  deliver-run :
      (o : Outcome ℕ) (w : World)
      → dispatch_payload o w ≡ and_then (run (sections (some_ok o)) w) returned
  unfolding dispatch_payload returned run step
  deliver-run (throw e) w = refl
  deliver-run (ok id) w = and_then-safe (dispatch id success w) returned

  config-run :
      (n : Notification) (w : World)
      → on_db_config_event_received lib (parser_notify lib n end) w
        ≡ and_then (run (sections (some_ok (read_payload lib (payload_of n)))) w) returned
  unfolding on_db_config_event_received parser_notify set is_empty contains find text_eq
      config_event read_channel as_string Json.at
  config-run n w = deliver-run (read_payload lib (payload_of n)) w

  state-returned :
      (n : Notification) (w : World)
      → on_db_state_event_received lib (parser_notify lib n end) w ≡ safe (ok tt, w)
  unfolding on_db_state_event_received parser_notify set is_empty find text_eq read_channel
      as_string Json.at
  state-returned n w = refl

  error-returned :
      (n : Notification) (w : World)
      → on_db_error_event_received lib (parser_notify lib n end) w ≡ safe (ok tt, w)
  unfolding on_db_error_event_received parser_notify set is_empty find contains text_eq read_channel
      read_type as_string Json.at
  error-returned n w = refl

  notification-run :
      (n : Notification) (w : World)
      → on_notification lib (server_callbacks lib) n w
        ≡ and_then (run (sections (announced n)) w) returned
  unfolding on_notification server_callbacks set_callback find_callback run_callback text_eq run
      returned
  notification-run n w = elim (Bool-cases (text_eq (codes "config_events") n.channel)) [
    | inl config ↦ rw config (config-run n w)
    | inr other ↦ elim (Bool-cases (text_eq (codes "state_events") n.channel)) [
      | inl state ↦ rw (other, state) (state-returned n w)
      | inr no_state ↦ elim (Bool-cases (text_eq (codes "error_events") n.channel)) [
        | inl error ↦ rw (other, no_state, error) (error-returned n w)
        | inr no_error ↦ rw (other, no_state, no_error) refl
      ]
    ]
  ]

  loop-run :
      (ns : List Notification) (w : World)
      → run_listener_loop lib (server_callbacks lib) ns w ≡ and_then (run (deliveries ns) w) alive
  unfolding run_listener_loop run returned after_notification
  loop-run [] w = refl
  loop-run (n ∷ ns) w =
      let x : Safe World = run (sections (announced n)) w in
      let loop : World → Safe (Bool × World) = run_listener_loop lib (server_callbacks lib) ns in
      ap (λ y. and_then y (after_notification loop)) (notification-run n w)
      ∙ sym (and_then-then x returned (after_notification loop) loop (λ a. refl))
      ∙ and_then-then x (run (deliveries ns)) alive loop (loop-run ns)
      ∙ ap (λ y. and_then y alive) (sym (run-append (sections (announced n)) (deliveries ns) w))

  -- Whatever notifications arrive, on any channel and with any payload, the listener goes on, follows no
  -- dangling pointer, and does to the dispatcher exactly the deliveries that they ask for, in order.
  pub run_listener_loop-deliveries :
      (ns : List Notification) (w : World)
      → Inv w
      → (w' : World) × (run_listener_loop lib (server_callbacks lib) ns w ≡ safe (true, w'))
        × (run (deliveries ns) w ≡ safe w')
        × Inv w'
  run_listener_loop-deliveries ns w v =
      let (w', e, v') = run-Inv (deliveries ns) w v in
      (w', loop-run ns w ∙ ap (λ x. and_then x alive) e, e, v')

  deliveries-Foreign : (id a : ℕ) (ns : List Notification) → All (Foreign id a) (deliveries ns)
  deliveries-Foreign id a [] = tt
  deliveries-Foreign id a (n ∷ ns) =
      All-append (Foreign id a) (sections (announced n)) (deliveries ns) (own (announced n))
        (deliveries-Foreign id a ns)
    where
      own : (o : Option ℕ) → All (Foreign id a) (sections o)
      own none = tt
      own (some j) = (tt, tt)

  last_answer-deliveries :
      (id : ℕ) (ns : List Notification) (s : ResponseStatus)
      → last_answer id (deliveries ns) s ≡ (if announces id ns then success else s)
  unfolding text_eq
  last_answer-deliveries id [] s = refl
  last_answer-deliveries id (n ∷ ns) s = elim (Option-cases (announced n)) [
    | inl silent ↦ rw silent (last_answer-deliveries id ns s)
    | inr (j, e) ↦ elim (Bool-cases (j == id)) [
      | inl hit ↦
          rw (e, hit) (last_answer-deliveries id ns success ∙ if_same (announces id ns) success)
      | inr miss ↦ rw (e, miss) (last_answer-deliveries id ns s)
    ]
  ]

  -- A thread that waits for an unused id, while the listener handles notifications and the map has room,
  -- returns SUCCESS exactly if one of them announces its id, and TIMEOUT if none does.
  pub wait_for_response-announced :
      (id : ℕ) (ns : List Notification) (w : World)
      → Inv w
      → length w.pending_requests < max_pending
      → Unused id w
      → Returns id w.next_frame
          (if announces id ns then success else timeout)
          (wait_for_response id (deliveries ns) w)
  wait_for_response-announced id ns w v room u =
      subst (λ r. Returns id w.next_frame r (wait_for_response id (deliveries ns) w))
        (last_answer-deliveries id ns timeout)
        (wait_for_response-Returns id (deliveries ns) w v room u
          (deliveries-Foreign id w.next_frame ns))
