-- ===== src/Examples.antt =====
-- Tests of the models, and the theorems applied to concrete inputs.
pub mod Graphs
mod Runs
pub mod Services
mod Pools
mod Preparations
mod Requests
pub mod Clients
mod Forms
