-- ===== src/Group.antt =====
-- internal/service/group: the consumer-group commands over the Kafka admin port.
pub mod Service
pub mod Listing
pub mod Lag
pub mod Reset
pub mod Members
pub mod Clone
