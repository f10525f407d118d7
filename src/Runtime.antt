-- ===== src/Runtime.antt =====
-- packages/agent-runtime: the agent state machine, the task graph, the loop controls, the agents
-- and their capabilities, the wave engine and the orchestrator.
pub mod StateMachine
pub mod Graph
pub mod LoopControls
pub mod Agents
pub mod Capabilities
pub mod Telemetry
pub mod WaveSummary
pub mod WaveEngine
pub mod Orchestrator
