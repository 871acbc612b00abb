-- ===== src/System.antt =====
-- The processes together, on one database: server/src/main.cpp, controller/src/main.cpp and
-- sensor/src/main.cpp over database/sql/db.sql.
pub mod Confirmation
pub mod Answered
pub mod Refused
pub mod Threads
pub mod Uncertified
