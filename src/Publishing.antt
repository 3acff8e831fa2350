-- ===== src/Publishing.antt =====
-- apps/server/internal/service/publish.go with the releases of
-- apps/server/internal/store/publish_repo.go: the publication of built packs.
pub mod Words
pub mod Model
pub mod Store
pub mod Service
pub mod Publish
pub mod Once
pub mod Histories
pub mod Repeats
pub mod Outcomes
mod Examples
