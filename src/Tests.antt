-- ===== src/Tests.antt =====
-- Concrete runs of the models, and the theorems of the other modules at concrete inputs.
mod Dispatching
mod Tokens
mod Storage
mod Requests
mod Commanding
mod Certificates
mod Events
mod Bridge
mod Wired
mod Proxying
mod Handshakes
mod Logging
mod Printing
mod Schemas
mod Whole
mod Threads
