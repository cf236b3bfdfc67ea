-- ===== src/Director/Mediator.antt =====
-- netunicorn-director/netunicorn-mediator/src/netunicorn/director/mediator/engine.py: the operations
-- that users call. `Experiments` has the life cycle of an experiment, `Checks` the checks of a new
-- experiment, `Preparation` the task that prepares it, `Executors` the cancellation of executors,
-- `Tokens` the access tokens, `Flags` the flags, and `Nodes` the nodes that a user sees.
pub mod Experiments
pub mod Checks
pub mod Executors
pub mod Tokens
pub mod Flags
pub mod Nodes
pub mod UiApi
pub mod Preparation
