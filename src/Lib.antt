-- ===== src/Lib.antt =====
-- A model of Smorx, the control plane of a software-change agent, and of what makes it correct.
--
-- The program's parts, and the files that model them:
--
-- * packages/agent-runtime/src/smorx_runtime. state.py is Runtime/StateMachine: the class
--   AgentStateMachine is a record of its state and its history, `transition` and `reset` are
--   functions on it, and a raised error is returned beside the unchanged machine. graph.py is
--   Runtime/Graph (the registry `add`, `add_dependency`, `_creates_cycle` as `creates_cycle`) and
--   Runtime/Graph/Waves (`ready`, `remaining`, `waves`); the dict of tasks is the list of its
--   values. capabilities.py is Runtime/Capabilities. loop_controls.py is Runtime/LoopControls: the
--   validation, the profiles of `for_env`, the NoProgressDetector and the IterationBudget. waves.py is
--   Runtime/WaveEngine (`run_wave`), with `_summarize_timings` in Runtime/WaveSummary, and telemetry.py
--   is Runtime/Telemetry; the order in which the tasks of a wave finish is an argument. orchestrator.py
--   is Runtime/Orchestrator (the phases and the reaction to the failed tasks of a wave),
--   Runtime/Orchestrator/Collecting (`_collect_wave`), Runtime/Orchestrator/Run (the configuration and
--   `_execute_wave`) and Runtime/Orchestrator/Rounds (the loop of `run`, which plans waves, runs them,
--   and stops by a verdict).
-- * packages/verification/src/smorx_verification. contracts.py is Verification/Contracts and
--   fusion.py is Verification/Fusion: evidence records are gathered into clubs, one for a claim,
--   and a claim's club gives its verdict.
-- * packages/delta/src/smorx_delta. deltas.py is Delta/Deltas, intent.py is Delta/Intent and
--   decision.py is Delta/Decision: the verification result becomes a delta for each claim, the
--   deltas are matched with the intent items, and the decision reads both. Delta/Pipeline composes
--   the three and Delta/Unopposed puts the fused verdicts in front of them.
--   repair.py is Delta/Repair and repair_loop.py is Delta/RepairLoop: a repair package is structured
--   in each pass of a loop on the bounds controller.
-- * packages/develop/src/smorx_develop. bounds.py is Develop/Bounds, candidates.py is
--   Develop/Candidates, with the statistics of execution.py, and trace.py is Develop/Trace:
--   `_append` for each event is `append_all`, and the loop of `verify_trace_integrity` is
--   `verify_from`.
-- * packages/certification/src/smorx_certification. alignment.py is Certification/Alignment and
--   merge_gate.py is Certification/MergeGate; Certification/Explained puts the one's verdict into the
--   other. Their rows are lists in a record for the session (Certification/Rows).
-- * packages/tools/src/smorx_tools. tool.py is Tools/Tool, policies.py is Tools/Policies, human.py is
--   Tools/Human, audit.py is Tools/Audit and control.py is Tools/Control (`_authorize` as
--   `authorize_view` in Tools/Control/Authorization) with Tools/Control/Execution (`execute`,
--   `execute_request`) and Tools/Control/Outcomes: the control plane asks the registry, the audit
--   trail, the policy and the human gate before a handler runs. What it reads of an agent's
--   assignment is Runtime/Agents, from agents.py of the agent runtime, with the checks of a result
--   there.
-- * packages/workflow/src/smorx_workflow. chaining.py is Workflow/Events (the number and the digest
--   of an event), replay.py is Workflow/Replay (`replay_from_evidence_graph`) and reliability.py is
--   Workflow/Reliability: `_record_event`, `_validate_run_scoped_chain`, `_resume_point`,
--   `cleanup_stale_sandboxes` and `reset_workflow`. The rows of the session are lists of a record.
-- * packages/precode/src/smorx_precode. impact.py is Precode/Impact: the validation of the nodes and
--   the edges, the stored map and its lock. The rows of the pre-coding objects are Precode/Rows.
-- * packages/develop/src/smorx_develop has, beside the parts above, handoff.py and barrier.py in
--   Develop/Barrier: the handoff of the locked pre-coding objects and the barrier that every execution
--   passes before it starts.
--
-- Prelude holds what the parts share: Boolean tests, equality as an instance, lists, dicts as
-- association lists in insertion order, results and texts.
--
-- Bounds and fuel. The search of `creates_cycle` has two more steps than the graph names
-- dependencies, since a dependency is pushed once; `waves` has one more round than there are tasks,
-- since a round schedules one at least. The loop of the orchestrator has as many rounds as there are
-- planned waves, tasks times two more than the retries of a task, and one: a round either takes a
-- planned wave or reacts to a failed task, and each task is reacted to a bounded number of times. In
-- the three `none` stands for fuel that ran out. The repair loop has the passes of its range.
-- Python's integers are natural numbers where the code rejects or never builds negative ones; seconds
-- are whole microseconds, scores and authorities are tenths. The clock's reading is an argument.
--
-- Not modelled: the other modules of packages/agent-runtime, packages/verification and
-- packages/delta, which run processes or read and write a database; of the orchestrator the
-- conflicts between the claims of two results and the audit decisions; the rest of packages/develop;
-- the overrides that loop_controls.py reads from the environment; packages/behavior but for the
-- columns that the modelled parts read; packages/contracts; of packages/precode the compiler of an
-- intent, its ledger, the change definition, the verification plan and the gate that locks them; of
-- packages/workflow the demonstration in orchestrate.py, its injected failures, and the part of
-- `resume_workflow` that runs the phases again; the certificates of packages/certification; the
-- tools themselves and the assembly in packages/tools; apps and scripts. `str.upper`, `str.lower`,
-- `uuid.uuid5`, SHA-256 and `json.dumps` are parameters.
-- Texts made for a reader (messages, summaries) are values that hold what they are made of.
pub mod Prelude
pub mod Runtime
pub mod Verification
pub mod Develop
pub mod Delta
pub mod Certification
pub mod Precode
pub mod Workflow
pub mod Tools
