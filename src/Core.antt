-- ===== src/Core.antt =====
-- internal/service/core: the transport-neutral sequencing that every service uses.
pub mod Token
pub mod Run
pub mod Destructive
pub mod Bulk
pub mod Events
pub mod Paging
