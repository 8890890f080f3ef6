-- ===== src/Topic.antt =====
-- internal/service/topic: the topic commands over the Kafka admin port.
pub mod Service
pub mod Events
pub mod Listing
pub mod Describe
pub mod Count
pub mod Create
pub mod Delete
pub mod Records
pub mod Alter
