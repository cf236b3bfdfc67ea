-- ===== src/Executor.antt =====
-- netunicorn-executor/src/netunicorn/executor/executor.py: the service that walks an execution
-- graph on a node. `Types` has its data, `Successors` the traversal of edges, `Round` one turn of
-- the loop of `execute`, `Execute` the whole method, and `Service` the states of `__call__`.
pub mod Types
pub mod Successors
pub mod Round
pub mod Execute
pub mod Service
