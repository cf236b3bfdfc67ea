-- ===== src/Lib.antt =====
-- netunicorn: experiments on the nodes of a network, as execution graphs that executors run. Paths
-- are from the repository's root.
--
-- Graph models netunicorn-base/src/netunicorn/base/execution_graph.py. networkx is a parameter, the
-- record Digraph of the operations that the program calls, with their laws; Graph/Adjacency has an
-- instance. Three analyses of networkx, connectedness, the search and acyclicity, are arguments
-- without laws. Graph/Validation has `is_execution_graph_valid`.
-- Pipeline models pipeline.py beside it: `then` of both classes is `append` and `cycle_append`.
-- Executor models netunicorn-executor/src/netunicorn/executor/executor.py: Successors has
-- `add_successors_to_waiting_tasks`, Round one turn of the loop in `execute`, Execute the whole
-- method, and Service `__call__` with its requests. The processes, the order of a Python set and
-- the network are arguments: a run is a list of observed turns (Turn) or worlds (World), and the
-- answer says whether the loop has ended within them, so that no statement depends on a bound.
-- Base has the entities of netunicorn-base that the director reads, and Pools the pools of nodes in
-- nodes.py of the same folder; Building has how a client builds an experiment (experiment.py and
-- deployment.py).
-- Json has the JSON forms of the entities (`__json__`, `from_json` and UnicornEncoder) and the types
-- of types.py.
-- Director models the services of netunicorn-director over one database, whose tables are lists
-- of rows (Director/Db): the gateway (netunicorn-gateway/src/netunicorn/director/gateway/api.py),
-- the mediator (netunicorn-mediator/src/netunicorn/director/mediator/engine.py), the processor
-- (netunicorn-processor/src/netunicorn/director/processor/__main__.py), the infrastructure
-- (netunicorn-infrastructure/src/netunicorn/director/infrastructure/kernel.py and tasks.py), and
-- the compiler and the authentication (__main__.py of netunicorn-compilation and of
-- netunicorn-authentication). Director/Server has the routes of the mediator (__main__.py beside
-- engine.py; ui_api.py is Director/Mediator/UiApi), Director/Infrastructure/Server those of the
-- infrastructure (server.py), and Director/Http what they share. The answers of other services, of connectors and of plug-ins, the
-- clock and fresh identifiers are arguments. An operation runs alone; the preparation of an
-- experiment stands in two parts, and Director/Life has the steps of the services in any order,
-- and the status diagram.
-- Client models netunicorn-client/src/netunicorn/client/remote.py, whose requests go to
-- Director/Server and its tables.
-- Common has what all parts share, and Examples the tests and the theorems at concrete inputs.
--
-- Times are seconds of UTC; the clock of the processor shows those of its time zone. The texts of errors are shortened, and logging is left out.
-- Counters of edges are integers: validation also takes a text that int() reads, at whose first
-- traversal the executor raises a TypeError, which is not modelled. What `del` and `remove` of the
-- executor's collections do with a missing element is not modelled either. Integers of flags have
-- no bound here, and 32 bits in the database. The hash of a compilation's key is a parameter. The
-- two queries of the user interface that hold the username as text stand as if it were a parameter,
-- as it is for a name without quotes. Between the client and the mediator an experiment stands for
-- its JSON form. Turns of the compiler are
-- counted, and as many as there are requests are enough. JSON is a tree, and bytes are texts; what
-- `from_json` reads must have the types of types.py. Not modelled: the connectors, configuration,
-- the heartbeat of the executor, and the loading of plug-ins, which are input and output or glue.
pub mod Common
pub mod Graph
pub mod Pipeline
pub mod Executor
pub mod Json
pub mod Base
pub mod Pools
pub mod Director
pub mod Client
pub mod Building
pub mod Examples
