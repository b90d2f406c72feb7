-- ===== src/Tests.antt =====
-- Tests of the model, and the theorems at concrete inputs.
pub mod Memory
pub mod StoreRuns
pub mod QueueRuns
pub mod DigestRuns
pub mod AppRuns
pub mod CycleRuns
pub mod RunnerRuns
pub mod ProcessRuns
pub mod ListingRuns
pub mod ConfigRuns
pub mod ChatRuns
pub mod SettingsRuns
pub mod SearchRuns
pub mod ParserRuns
pub mod TelegramRuns
pub mod SnapshotRuns
