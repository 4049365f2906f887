-- ===== src/Outcome.antt =====
-- What the requests of server/ttsd_server.cpp do to the tables, from the call to its return.
pub mod Frame
pub mod Stop
pub mod Play
pub mod Result
pub mod Late
pub mod Register
mod Examples
