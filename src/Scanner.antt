-- ===== src/Scanner.antt =====
-- internal/scanner: Sidecar has the subtitles beside a video of sidecar.go.
pub mod Sidecar
mod Tests
