-- ===== src/Quests.antt =====
-- apps/server/internal/service/content.go, its quests, with their rows in
-- apps/server/internal/store/content_repo.go: the checks of a draft, and saving, reading, applying
-- and restoring it.
pub mod Queue
pub mod Pigeons
pub mod Relaxing
pub mod Draining
pub mod Cycles
pub mod Ranks
pub mod Model
pub mod Checks
pub mod Validate
pub mod Reports
pub mod Graphs
pub mod Rows
pub mod Store
pub mod Service
pub mod Ids
pub mod RoundTrip
pub mod Saves
pub mod Restores
pub mod References
mod Examples
