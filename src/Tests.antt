-- ===== src/Tests.antt =====
-- Runs of the model on concrete inputs, and instances of the theorems at such inputs.
mod Fixtures
mod BookRuns
mod EngineRuns
mod WireRuns
mod WalRuns
mod GatewayRuns
mod SnapshotRuns
mod QueueRuns
mod ThreadRuns
mod RestartRuns
