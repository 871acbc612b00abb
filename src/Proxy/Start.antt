-- ===== src/Proxy/Start.antt =====
-- `main` of proxy/src/main.cpp from the options that it has read to its exit code, with
-- `connect_backend`. What Botan and Boost.Asio do is the parameter `Surroundings`.
use management_sensors.Prelude.{
  ℕ, ℤ, pos, negsuc, ◌-◌, ◌%◌, ◌^◌, ◌≡◌, refl, Bool, true, false, Text, codes, Option, none, some,
  Outcome, ok, throw, ◌>>=◌, ◌>>◌, std_exception,
}
use management_sensors.Cli.Words.{IntResult, no_input, bad_int, good_int, read_int}
use management_sensors.Tls.{Policy, load_tls_policy}

pub record Options : Type 0 where
  pub listen_port : ℕ
  pub backend_host : Text
  pub backend_port : Text
  pub ca_cert : Text
  pub cert : Text
  pub key : Text
  pub policy : Text

-- What the calls do; `accepting` is how the loop of `do_listen` ends, which only an exception or a
-- signal does.
pub record Surroundings : Type 0 where
  pub load_credentials : Text → Text → Text → Outcome (Unit {0})
  pub make_policy : Policy → Outcome (Unit {0})
  pub resolve : Text → Text → Outcome (Unit {0})
  pub connect : Outcome (Unit {0})
  pub handshake : Outcome (Unit {0})
  pub open_acceptor : ℕ → Outcome (Unit {0})
  pub accepting : Outcome (Unit {0})

-- std::stoi, which skips what follows the number.
int_or_throw : IntResult → Outcome ℤ
int_or_throw no_input = throw (std_exception (codes "stoi"))
int_or_throw (bad_int z) = throw (std_exception (codes "stoi"))
int_or_throw (good_int z rest) = ok z

unfoldable pub stoi : Text → Outcome ℤ
unfolding int_or_throw
stoi t = int_or_throw (read_int t)

-- static_cast<uint16_t> of an int.
unfoldable pub to_uint16 : ℤ → ℕ
to_uint16 (pos n) = n % 2 ^ 16
to_uint16 (negsuc n) = 2 ^ 16 - 1 - n % 2 ^ 16

-- What a run has come to: the port in the server information of the TLS context, whether the TLS
-- connection to the backend was made, whether the acceptor was open, and the exit code.
pub record Run : Type 0 where
  pub server_port : Option ℕ
  pub connected : Bool
  pub listened : Bool
  pub exit_code : ℕ

module _ (e : Surroundings) (o : Options) where
  -- The `try` block up to the TLS context with its server information.
  unfoldable pub prepare : Outcome ℕ
  prepare = do
    u ← e.load_credentials o.ca_cert o.cert o.key
    u ← e.make_policy (load_tls_policy o.policy)
    port ← stoi o.backend_port
    ok (to_uint16 port)

  -- `connect_backend`: its handlers throw again what they have caught.
  unfoldable pub connect_backend : Outcome (Unit {0})
  connect_backend = e.resolve o.backend_host o.backend_port >> (e.connect >> e.handshake)

  -- `do_listen`, once connected; its exception is logged only.
  do_listen : ℕ → Outcome (Unit {0}) → Run
  do_listen port (throw x) = record {
    server_port = some port;
    connected = true;
    listened = false;
    exit_code = 0;
  }
  do_listen port (ok _) = record {
    server_port = some port;
    connected = true;
    listened = true;
    exit_code = 0;
  }

  -- The coroutine of `main`; the handler of its exception logs it and stops the context.
  serve : ℕ → Outcome (Unit {0}) → Run
  unfolding do_listen
  serve port (throw x) = record {
    server_port = some port;
    connected = false;
    listened = false;
    exit_code = 0;
  }
  serve port (ok _) = do_listen port (e.open_acceptor o.listen_port)

  start_with : Outcome ℕ → Run
  unfolding serve
  start_with (throw x) = record {
    server_port = none;
    connected = false;
    listened = false;
    exit_code = 1;
  }
  start_with (ok port) = serve port connect_backend

  unfoldable pub start_proxy : Run
  unfolding start_with
  start_proxy = start_with prepare

  served : (port : ℕ) (r : Outcome (Unit {0})) → (serve port r).exit_code ≡ 0
  unfolding serve do_listen
  served port (throw x) = refl
  served port (ok u) = ended (e.open_acceptor o.listen_port)
    where
      ended : (r : Outcome (Unit {0})) → (do_listen port r).exit_code ≡ 0
      ended (throw x) = refl
      ended (ok u) = refl

  -- Once the credentials, the policy and the port are read, the exit code is 0, whether the backend could
  -- be reached or not.
  pub start_proxy-exit : (port : ℕ) → prepare ≡ ok port → start_proxy.exit_code ≡ 0
  unfolding start_proxy
  start_proxy-exit port h = rw h (served port connect_backend)

  serve-connected : (port : ℕ) (r : Outcome (Unit {0})) → (serve port r).listened ≡ true → r ≡ ok tt
  unfolding serve
  serve-connected port (throw x) h = cc
  serve-connected port (ok u) h = refl

  start-connected : (r : Outcome ℕ) → (start_with r).listened ≡ true → connect_backend ≡ ok tt
  unfolding start_with
  start-connected (throw x) h = absurd (cc)
  start-connected (ok port) h = serve-connected port connect_backend h

  -- The proxy opens its port only when the TLS connection to the backend is made.
  pub start_proxy-connected : start_proxy.listened ≡ true → connect_backend ≡ ok tt
  unfolding start_proxy
  start_proxy-connected h = start-connected prepare h
