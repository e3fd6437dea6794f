-- ===== src/Pipeline.antt =====
-- internal/pipeline: Sessions has the live transcodes of pipeline.go.
pub mod Job
pub mod Args
pub mod Sessions
mod Tests
