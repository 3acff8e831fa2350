-- ===== src/Drafts.antt =====
-- apps/server/internal/service/content.go, up to its quests, and apps/server/internal/store/content_repo.go:
-- documents of pack content, and their revisions.
pub mod Json
pub mod Bounds
pub mod Payload
pub mod Model
pub mod Store
pub mod Changes
pub mod Service
pub mod Review
pub mod Rows
pub mod Invariant
pub mod Moves
pub mod Growth
pub mod Transactions
pub mod Cleared
pub mod Operations
pub mod Histories
pub mod Reviewed
pub mod Lasting
pub mod Reading
pub mod Rollbacks
pub mod Saves
pub mod Resaves
mod Examples
