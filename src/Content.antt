-- ===== src/Content.antt =====
-- apps/server/internal/service/mod_content_kind.go: what a file in a mod's archive is, by its path.
pub mod Paths
pub mod Kinds
pub mod Unlocks
mod Examples
