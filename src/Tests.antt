-- ===== src/Tests.antt =====
-- Runs of the model on concrete tables.
mod Data
mod StoreRuns
mod CarddavRuns
mod ServerRuns
mod HandlerRuns
mod CtlRuns
mod SyncRuns
mod ChainRuns
