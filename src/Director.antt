-- ===== src/Director.antt =====
-- The director: the services of netunicorn-director over one database.
pub mod Db
pub mod Outcome
pub mod Gateway
pub mod Mediator
pub mod Processor
pub mod Infrastructure
pub mod Compilation
pub mod Life
pub mod Authentication
pub mod Http
pub mod Server
