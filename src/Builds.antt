-- ===== src/Builds.antt =====
-- apps/server/internal/service/build.go and RecordBuildInputs of
-- apps/server/internal/store/publish_repo.go: what a build records, and puts into an archive.
pub mod Archive
pub mod Manifest
pub mod Zip
pub mod Segments
pub mod Safe
pub mod Written
pub mod Archived
pub mod Provenance
pub mod Kept
mod Examples
