-- ===== src/Lib.antt =====
-- Verification of the management-sensors server: the part of the system that lets an operator change
-- a sensor's configuration over a TLS session, and waits until the database has confirmed it.
--
-- A request comes in over HTTP (server/src/http) or as a command line (server/src/cli). Its handler
-- makes a request id and stores a pending change in the database (libs/db), and waits in the dispatcher
-- (server/src/dispatcher). When the change has gone through, the database notifies the listener thread
-- (libs/db), whose handler (server/src/main.cpp) dispatches the answer to the thread that waits. HTTP
-- requests carry a token (libs/jwt). The TLS side (server/src/net) answers with an OCSP response that it
-- keeps (server/src/oscp). A proxy (proxy/src) takes plain HTTP from frontends, and sends it on over
-- one TLS connection. All processes write their log with common/log.
--
-- The files and the code:
--   Prelude: texts as lists of byte values, maps, machine integers, exceptions and faults as values.
--   Json: boost::json values and the printer of libs/json/JsonUtils.cpp (Json/Print, with
--     its layout in Print/Indent).
--   Dispatcher: server/src/dispatcher/Dispatcher.{hpp,cpp}. Each critical section under `map_mtx` is a
--     step; a context on a waiting thread's stack is a frame, and following a pointer to a frame that
--     is gone is a fault. Safety has the invariant, Delivery what a waiting thread is told, Limits the
--     bound and two waits for one id. The time limit is a step that may come at any point.
--   Jwt: libs/jwt/JwtManager.cpp; `generate` and `verify` take the time as an argument. Base64url,
--     Verify and RoundTrip have the theorems, Keys the constructor. The padding loop runs on fuel 3,
--     which always suffices.
--   Db: libs/db/DatabaseManager.cpp. Each method holds `conn_mutex_`, so it is one action on the state
--     of the database; SQL texts are the constructors of `Statement`. Queries has the methods on
--     tables, Listener the notifications, with a list of notifications in place of the endless loop,
--     Lifecycle the two connections from `connect` to the destructor.
--   Backend: what both session handlers call on the database and the dispatcher.
--   Http: server/src/http/QuantumSafeHttp.{hpp,cpp}: Responses, Static (files), Api (login, token check,
--     configuration) and Session (the loop over one connection, on the list of its requests).
--   Cli: server/src/cli/QuantumCommandCli.{hpp,cpp}; Words has the reads from std::istringstream,
--     Incomplete a line that is not valid.
--   Ocsp: server/src/oscp/ocsp_cache.{hpp,cpp}; Address is `parse_url`. The halving loop runs on fuel
--     one above the duration, which suffices. Times and durations are natural numbers, without the
--     overflow of std::chrono for an ocsp-cache-time that is huge or negative as an int64.
--   Server: the handlers of database events of server/src/main.cpp; Delivery joins them with the
--     listener and the dispatcher, Wiring puts the HTTP handler on the database and the dispatcher, and
--     Start is `main` from its options to the sessions that it serves.
--   Controller: the bridge to the sensors, controller/src/main.cpp, and the confirming loop of
--     sensor/src/main.cpp; Pipeline follows a change to the sensor and back, Telemetry a temperature to
--     the database, Start is what `main` does with the database first, and Running how both processes
--     link to the broker and end. The loops run over the list of the messages that arrive.
--   Proxy: proxy/src/main.cpp. A session is a stage of its coroutine, and a step of one session, of the
--     backend or of the connection is a constructor of `Step`; a message is written or read whole,
--     and a session may lose whole responses that its buffer has read too far. What follows on a part of
--     a response that is lost so, on a response to HEAD whose header states a length, and on a body over
--     the parser's limit is not modelled. Start is its `main`.
--   Tls: server/src/net/QuantumSafeTlsEngine.{hpp,cpp}: Credentials (also the proxy's), Details (the JSON
--     of the connection details) and Engine (the sessions). The hexadecimal digits run on fuel one above
--     the number, which suffices.
--   Log: common/log/Log.hpp.
--   Schema: the tables and triggers of database/sql/db.sql. Statements has what the SQL texts of
--     libs/db/DatabaseManager.cpp do to the tables, Seeding the sequence of request ids, Announcing what the server reads in a
--     notification, Storing and Refusing what a request and its confirmation leave in the tables.
--   System: the processes on one database; Confirmation is the way of a request from its row to the row
--     that confirms it, Answered the HTTP request from end to end, Threads the server's threads that
--     generate ids and wait for them, Refused a request that the database refuses, Uncertified a sensor
--     without a certificate.
--   Tests: concrete runs.
--
-- Parameters, with their assumptions as named hypotheses: Botan (Jwt.Crypto, Ocsp.Response and
-- Ocsp.Network), the parser and the serializer of boost::json (Json.Library), libpqxx with PostgreSQL
-- (Db.Postgres, and for the tables the types and writers in Schema.Dialect), paho.mqtt.cpp
-- (Controller.Broker, Controller.Running.Link), Botan's certificates, keys and groups
-- (Tls.Credentials.Botan, Tls.Details.GroupParams), the file system (Http.Services, Jwt.Keys, Log), and
-- the clocks. `Db.Queries.Errors.Atomic` takes a commit that throws to have stored nothing; the case
-- that libpqxx reports as in doubt is left out.
--
-- Not modelled: the log lines that the code writes; memory exhaustion; the threads and sockets of
-- Boost.Asio, and TLS itself, which Botan does; the parsing of options; the seed data of the SQL
-- schema; the web frontend, the tests and the scripts; and controller/deps, a library of others.
pub mod Prelude
pub mod Json
pub mod Dispatcher
pub mod Jwt
pub mod Db
pub mod Backend
pub mod Http
pub mod Cli
pub mod Ocsp
pub mod Schema
pub mod Server
pub mod Controller
pub mod Proxy
pub mod Tls
pub mod Log
pub mod System
mod Tests
