-- ===== src/Server/Start/Readiness.antt =====
-- What holds once the server of server/src/main.cpp serves.
use management_sensors.Prelude.{
  text_eq_sound, ◌⊎◌, [], ◌∷◌, not, ◌≡◌, refl, sym, ap, subst, ◌≢◌, ◌∙◌, inl, inr, Bool, true,
  false, Bool-cases, Text, codes, text_eq, Outcome, ok, throw, Exception, std_exception, arith,
  ◌>>◌,
}
use management_sensors.Json
use management_sensors.Json.{Members}
use management_sensors.Dispatcher.{World}
use management_sensors.Jwt.Keys.{KeyFiles, load_keys}
use management_sensors.Db.{Postgres, Connection, is_usable}
use management_sensors.Db.Queries.{init_request_id_sequence, get_sanity_info}
use management_sensors.Db.Listener.{Callbacks}
use management_sensors.Db.Lifecycle.{DatabaseManager, new_manager, connect, start_listener}
use management_sensors.Server.Start.{
  Options, SessionHandler, http_handler, raw_handler, has_keys, is_empty, choose_handler, Serving,
  register_events, handler_chosen, sanity_checked, sequence_ready, database_connected, start_server,
}

-- The handler that the options ask for: by the mode, and with tokens exactly if both files are named.
pub data Chosen (f : KeyFiles) (o : Options) : SessionHandler → Type 0 where
  chosen_http :
      o.mode ≡ codes "http" → (o.jwt_key ≡ []) ⊎ (o.jwt_cert ≡ []) → Chosen f o (http_handler false)
  chosen_tokens :
      o.mode ≡ codes "http"
      → o.jwt_key ≢ []
      → o.jwt_cert ≢ []
      → load_keys f o.jwt_key o.jwt_cert ≡ ok tt
      → Chosen f o (http_handler true)
  chosen_raw : o.mode ≡ codes "raw" → Chosen f o raw_handler

named : (t : Text) → not (is_empty t) ≡ true → t ≢ []
named [] h e = cc
named (c ∷ t) h e = cc

named_both : (o : Options) → has_keys o ≡ true → (o.jwt_key ≢ []) × (o.jwt_cert ≢ [])
named_both o h = (named o.jwt_key (ground (arith, h)), named o.jwt_cert (ground (arith, h)))

unnamed : (t : Text) → (t ≡ []) ⊎ (not (is_empty t) ≡ true)
unnamed [] = inl refl
unnamed (c ∷ t) = inr refl

unnamed_one : (o : Options) → has_keys o ≡ false → (o.jwt_key ≡ []) ⊎ (o.jwt_cert ≡ [])
unnamed_one o h = elim (unnamed o.jwt_key) [
  | inl no_key ↦ inl no_key
  | inr key ↦ elim (unnamed o.jwt_cert) [
    | inl no_cert ↦ inr no_cert
    | inr cert ↦ absurd (ground (arith, h, key, cert))
  ]
]

then_ok :
    {A : Type 0} (x : Outcome (Unit {0})) (a b : A) → (x >> ok a) ≡ ok b → (x ≡ ok tt) × (a ≡ b)
then_ok (ok tt) a b e = (refl, cc)
then_ok (throw x) a b e = absurd (cc)

choose_handler-Chosen :
    (f : KeyFiles) (o : Options) (h : SessionHandler) → choose_handler f o ≡ ok h → Chosen f o h
unfolding choose_handler
choose_handler-Chosen f o h e = elim (Bool-cases (text_eq o.mode (codes "http"))) [
  | inl http ↦ elim (Bool-cases (has_keys o)) [
    | inl keys ↦
        let (loaded, same) =
          then_ok (load_keys f o.jwt_key o.jwt_cert) (http_handler true) h
            (ground (arith, e, http, keys)) in
        let (key, cert) = named_both o keys in
        subst (Chosen f o) same
          (chosen_tokens (text_eq_sound o.mode (codes "http") http) key cert loaded)
    | inr no_keys ↦
        let same : http_handler false ≡ h = ground (arith, e, http, no_keys) in
        subst (Chosen f o) same
          (chosen_http (text_eq_sound o.mode (codes "http") http) (unnamed_one o no_keys))
  ]
  | inr other ↦ elim (Bool-cases (text_eq o.mode (codes "raw"))) [
    | inl raw ↦
        let same : raw_handler ≡ h = ground (arith, e, other, raw) in
        subst (Chosen f o) same (chosen_raw (text_eq_sound o.mode (codes "raw") raw))
    | inr neither ↦ absurd (ground (arith, e, other, neither))
  ]
]

module _ (p : Postgres) (still_open : Exception → Bool) (lib : Json.Library) (f : KeyFiles) where
  -- What the start of the server establishes.
  pub record Ready (o : Options) (v : Serving p) : Type 0 where
    pub queries_usable : is_usable v.manager.connection_queries ≡ true
    pub listening : v.manager.listener_thread ≡ true
    pub handler_chosen : Chosen f o v.handler

  handler_chosen-Ready :
      (o : Options) (m : DatabaseManager) (callbacks : Callbacks World) (s : p.State)
      (v : Serving p) (r : Outcome SessionHandler)
      → r ≡ choose_handler f o
      → is_usable m.connection_queries ≡ true
      → m.listener_thread ≡ true
      → handler_chosen p still_open lib f m callbacks s r ≡ ok v
      → Ready o v
  unfolding handler_chosen
  handler_chosen-Ready o m callbacks s v (throw x) q usable listens e = absurd (cc)
  handler_chosen-Ready o m callbacks s v (ok h) q usable listens e =
      let same : record { manager = m; callbacks = callbacks; handler = h; database = s } ≡ v =
        cc in
      subst (Ready o) same (record {
        queries_usable = usable;
        listening = listens;
        handler_chosen = choose_handler-Chosen f o h (sym q);
      })

  sanity_checked-Ready :
      (o : Options) (m : DatabaseManager) (callbacks : Callbacks World) (v : Serving p)
      (r : Outcome Members × p.State)
      → is_usable m.connection_queries ≡ true
      → m.listener_thread ≡ true
      → sanity_checked p still_open lib f o m callbacks r ≡ ok v
      → Ready o v
  unfolding sanity_checked
  sanity_checked-Ready o m callbacks v (throw x, s) usable listens e = absurd (cc)
  sanity_checked-Ready o m callbacks v (ok info, s) usable listens e =
      handler_chosen-Ready o m callbacks s v (choose_handler f o) refl usable listens e

  start_listener-thread :
      (m : DatabaseManager)
      → ((start_listener m).1.listener_thread ≡ true)
        × ((start_listener m).1.connection_queries ≡ m.connection_queries)
  unfolding start_listener
  start_listener-thread m = elim (Bool-cases m.listener_thread) [
    | inl on ↦ rw on (refl, refl)
    | inr off ↦ rw off (refl, refl)
  ]

  sequence_ready-Ready :
      (o : Options) (m : DatabaseManager) (v : Serving p) (r : Outcome (Unit {0}) × p.State)
      → is_usable m.connection_queries ≡ true
      → sequence_ready p still_open lib f o m r ≡ ok v
      → Ready o v
  unfolding sequence_ready
  sequence_ready-Ready o m v (throw x, s) usable e = absurd (cc)
  sequence_ready-Ready o m v (ok u, s) usable e =
      let m' = (start_listener m).1 in
      let (listens, same) = start_listener-thread m in
      let (callbacks, s') = register_events p still_open lib f m.connection_listener s in
      sanity_checked-Ready o m' callbacks v (get_sanity_info p m'.connection_queries s')
        (ap is_usable same ∙ usable) listens e

  thrown :
      (o : Options) (m : DatabaseManager) (v : Serving p) (r : Outcome (Unit {0}) × p.State)
      (x : Exception)
      → r.0 ≡ throw x
      → sequence_ready p still_open lib f o m r ≢ ok v
  unfolding sequence_ready
  thrown o m v (throw y, s) x e h = cc
  thrown o m v (ok u, s) x e h = cc

  unusable-throws :
      (c : Connection) (s : p.State)
      → is_usable c ≡ false
      → (init_request_id_sequence p c s).0
        ≡ throw (std_exception (codes "Database connection lost."))
  unfolding init_request_id_sequence
  unusable-throws c s shut = rw shut refl

  sequence-Ready :
      (o : Options) (m : DatabaseManager) (s : p.State) (v : Serving p)
      → sequence_ready p still_open lib f o m (init_request_id_sequence p m.connection_queries s)
        ≡ ok v
      → Ready o v
  sequence-Ready o m s v h = elim (Bool-cases (is_usable m.connection_queries)) [
    | inl usable ↦
        sequence_ready-Ready o m v (init_request_id_sequence p m.connection_queries s) usable h
    | inr shut ↦ absurd (
        thrown o m v (init_request_id_sequence p m.connection_queries s)
          (std_exception (codes "Database connection lost."))
          (unusable-throws m.connection_queries s shut) h)
  ]

  database_connected-Ready :
      (o : Options) (v : Serving p) (r : Outcome (Unit {0}) × DatabaseManager × p.State)
      → database_connected p still_open lib f o r ≡ ok v
      → Ready o v
  unfolding database_connected
  database_connected-Ready o v (throw x, m, s) h = absurd (cc)
  database_connected-Ready o v (ok u, m, s) h = sequence-Ready o m s v h

  -- A server that comes to serve has an open connection for queries and a listener thread, and the handler
  -- of its mode: the one for HTTP checks tokens exactly if both files were named, and then their keys
  -- were loaded.
  pub start_server-Ready :
      (o : Options) (engine : Outcome (Unit {0})) (conn_str : Text) (s : p.State) (v : Serving p)
      → start_server p still_open lib f o engine conn_str s ≡ ok v
      → Ready o v
  unfolding start_server
  start_server-Ready o (throw x) conn_str s v h = absurd (cc)
  start_server-Ready o (ok u) conn_str s v h =
      database_connected-Ready o v (connect p still_open conn_str new_manager s) h
