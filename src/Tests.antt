-- ===== src/Tests.antt =====
-- Runs of the definitions on concrete inputs, with the source's own tests among them.
mod ExpiryRuns
mod WorkerRuns
mod ClaimRuns
mod ConfigRuns
mod LoopRuns
mod TaskRuns
mod LeaseRuns
mod CallerRuns
mod PumpRuns
mod SystemRuns
mod StorageRuns
mod ChangeStreamRuns
mod TraceRuns
mod PoolRuns
