-- ===== src/Scan.antt =====
-- internal/scan: the bounded scan that reads, searches, filters and replays share.
pub mod Types
pub mod Codec
pub mod Matcher
pub mod Runner
pub mod Run
