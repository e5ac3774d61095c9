-- ===== src/Lib.antt =====
-- A model of the core of mote-kernel: the authoritative state of one recoverable graph run with its
-- pure transitions, the engine that plans, admits, settles and routes a run's supersteps, and the
-- failover policy that a Port is wrapped in.
--
-- GraphState models mote-kernel/src/mote_kernel/state/graph_state/. A run is a record
-- `GraphRunState`; a command goes through `reduce_graph_run`, which validates the state, checks the
-- revision that the command was based on, applies one transition and validates the successor. Its
-- callers persist the successor, and `admit_graph_run_confirmation` admits what the store confirms.
-- The modules carry the names of the files:
--   GraphState/Identity, Identity/Text     identity.py (texts, derived identities, order)
--   GraphState/FrontierModel               frontier_model.py, routing.py
--   GraphState/ResourceModel               resource_model.py, resource_command.py
--   GraphState/ResourceReducer             resource_reducer.py (_advance is advance_loop)
--   GraphState/Model, Command              model.py, command.py
--   GraphState/Validation, Validation/Run  validation.py
--   GraphState/Transitions and below       execution_transitions.py, lifecycle_transitions.py, and
--                                          recovery_transitions.py (Transitions/Resume)
--   GraphState/Reducer                     reducer.py
-- Functions keep their names, without a leading underscore; a check that a constructor makes in
-- `__post_init__` is a function `new_...`, the class method `admit` is `admit_...`. The proofs stand
-- in Identity/Fields and Injective, Validation/Facts and Stable, FrontierModel/Status, below
-- ResourceReducer, and below Reducer; Scenarios holds a short run with its tests.
--
-- Execution models mote-kernel/src/mote_kernel/execution/. The engine reads a compiled graph and a
-- `GraphRunState`, and writes commands, which go through GraphState's `reduce_graph_run`: it plans
-- the tasks of the pending nodes, claims the frontier's resources and the lease, selects the tasks
-- that may start, settles each result, and resolves the next frontier.
--   Execution/Identity, Graph        identity.py; the compiled plan of graph/topology.py, ports.py,
--                                    node.py, definition.py and constants.py; limits.py
--   Execution/Task, Admission        engine/task.py, engine/admission.py
--   Execution/Routing and below      engine/routing.py: Contribution (the routes of one node),
--                                    Joins and Gates (arrivals and causes), Evaluation (the facts of
--                                    one state), Control (the next frontier and the admission of
--                                    transitions); Diagnosis has its messages and `try` statements
--   Execution/Snapshot, Planner      engine/snapshot_guard.py, engine/planner.py
--   Execution/Settlement             engine/settlement.py, result.py, engine/resume_input.py (the
--                                    check of the codec's binding)
--   Execution/Claim                  claim.py, engine/claim_stage.py
--   Execution/Scheduler              engine/scheduler.py (the pool of live tasks)
-- A loop's variables are a record and its body a function, as `contribute` of `resolve_control`.
-- The other modules below these files hold proofs; Scenarios is a graph of two entries that compete
-- for a resource.
--
-- Failover models mote-kernel/src/mote_kernel/failover/: Contract (contract.py), Plan (plan.py),
-- Policy (policy.py) and Assembly (assembly.py), where `attempts` is the cycle of the nodes INVOKE
-- and PREPARE. Attempts, Backoff, Usage and Routing hold proofs, Routing/Rules
-- a description of the policy that stands apart from the code; Scenarios has an example.
--
-- Conventions. An exception is the value `err` of its class with its message; an ExecutionError
-- has the constant text of its message and a list of the values that are printed into it. Integers
-- are natural numbers, so that the source's checks that a value has its declared type, and that an
-- integer is not negative, hold by typing. A `set` or `frozenset` is a list without repetitions, a
-- `dict` an association list in insertion order, `bytes` a list of numbers. The optional fields
-- config_definition_id and config_definition_version of the state, which `__post_init__` fills,
-- are always present. Durations are whole multiples of a unit, and a `datetime` is a parameter of
-- the retry context, with the test whether its zone is set.
--
-- Parameters. The wrapped Port and the preparation of a next request are arguments of Assembly,
-- and may return or raise anything; the plan is the one that Config binds for the activation. The
-- attempt id that `uuid4` draws is an argument of `prepare_claim`, and the printed form of a tuple
-- one of `project_routing_facts`. Objects that Claim compares by identity are numbers. The events
-- of the handles that `asyncio.wait` reports as done are an argument of `next_completion`.
--
-- Fuel. `decimal_within n` prints n with n rounds, more than n has digits. `attempts` counts rounds;
-- the rounds that an operation is given are its budget's max_wire_attempts.
--
-- Not modelled: the value plane of the execution (input frames, publications, codecs, resolved
-- inputs) and nested graphs, which the compiled plan of Graph leaves out; the graph compiler with
-- its frontier proof; sessions, recovery, the execution of a single task and the asynchronous
-- drivers; act, observe, think, loop, hooks and the application surface, which call the engine or
-- do input and output; the graph builder calls and Config projections of the failover; and the
-- trees in other languages.
pub mod Base
pub mod GraphState
pub mod Failover
pub mod Execution
