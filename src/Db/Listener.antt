-- ===== src/Db/Listener.antt =====
-- The notifications of libs/db/DatabaseManager.cpp: `register_listen_async`, the handler that it gives
-- to libpqxx, the loop of `run_listener_loop` and `parser_notify`. A callback acts on a state of type
-- `S`; it may throw, and it may reach undefined behaviour. Log lines are left out.
use management_sensors.Prelude.{
  Bool, true, false, not, Text, codes, text_eq, c_str, List, [], ◌∷◌, Option, none, some, Outcome,
  ok, throw, Safe, safe, and_then, if◌then◌else◌,
}
use management_sensors.Json
use management_sensors.Json.{Value, string, Members, end, set}
use management_sensors.Db.{Postgres, listen_channel, Rows, Connection, is_usable}

-- pqxx::notification
pub record Notification : Type 0 where
  pub channel : Text
  pub payload : Text

module _ (lib : Json.Library) where
  unfoldable pub payload_value : Text → Outcome Value → Value
  payload_value payload (ok v) = v
  payload_value payload (throw e) = string payload

  -- `DatabaseManager::parser_notify`, the message as it leaves it.
  unfoldable pub parser_notify : Notification → Members → Members
  unfolding payload_value
  parser_notify n msg =
      let msg' = set (codes "channel") (string (c_str n.channel)) msg in
      set (codes "payload") (payload_value (c_str n.payload) (lib.parse (c_str n.payload))) msg'

module _ {ℓ} (S : Type ℓ) where
  -- `std::function<void(boost::json::object)>`
  abbrev pub Callback : Type ℓ
  Callback = Members → S → Safe (Outcome (Unit {0}) × S)

  -- `callbacks_`, with one entry for each channel.
  abbrev pub Callbacks : Type ℓ
  Callbacks = List (Text × Callback)

module _ {ℓ} {S : Type ℓ} where
  unfoldable pub find_callback : Text → Callbacks S → Option (Callback S)
  find_callback k [] = none
  find_callback k ((j, f) ∷ m) = if text_eq j k then some f else find_callback k m

  unfoldable pub set_callback : Text → Callback S → Callbacks S → Callbacks S
  set_callback k f [] = (k, f) ∷ []
  set_callback k f ((j, g) ∷ m) = if text_eq j k then (k, f) ∷ m else (j, g) ∷ set_callback k f m

  unfoldable pub run_callback : Option (Callback S) → Members → S → Safe (Outcome (Unit {0}) × S)
  run_callback none msg s = safe (ok tt, s)
  run_callback (some handler) msg s = handler msg s

  -- The handler that `register_listen_async` gives to libpqxx.
  unfoldable pub on_notification :
      Json.Library → Callbacks S → Notification → S → Safe (Outcome (Unit {0}) × S)
  unfolding run_callback
  on_notification lib callbacks n s =
      run_callback (find_callback n.channel callbacks) (parser_notify lib n end) s

  unfoldable pub after_notification :
      (S → Safe (Bool × S)) → Outcome (Unit {0}) × S → Safe (Bool × S)
  after_notification next (ok _, s) = next s
  after_notification next (throw e, s) = safe (false, s)

  -- The thread of `run_listener_loop` on the notifications that arrive: whether it still waits after
  -- them, which it does not where a handler has thrown.
  unfoldable pub run_listener_loop :
      Json.Library → Callbacks S → List Notification → S → Safe (Bool × S)
  unfolding after_notification
  run_listener_loop lib callbacks [] s = safe (true, s)
  run_listener_loop lib callbacks (n ∷ ns) s =
      and_then (on_notification lib callbacks n s)
        (after_notification (run_listener_loop lib callbacks ns))

  -- After LISTEN: the callback is stored, and libpqxx is given the handler of the channel.
  registered :
      (p : Postgres)
      → Text
      → Callback S
      → Callbacks S
      → Outcome Rows × p.State
      → Callbacks S × p.State
  registered p channel callback callbacks (ok _, d) =
      (set_callback channel callback callbacks, (p.listen channel d).1)
  registered p channel callback callbacks (throw e, d) = (callbacks, d)

  -- `DatabaseManager::register_listen_async`: every exception is swallowed, also that of a connection
  -- which is not there.
  unfoldable pub register_listen_async :
      (p : Postgres)
      → Connection
      → Text
      → Callback S
      → Callbacks S
      → p.State
      → Callbacks S × p.State
  unfolding registered
  register_listen_async p c channel callback callbacks d =
      if not (is_usable c)
      then (callbacks, d)
      else registered p channel callback callbacks (p.exec (listen_channel channel) d)
