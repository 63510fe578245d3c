-- ===== src/Broker.antt =====
-- The broker: its data, the message store and the delivery of messages to one client.
pub mod Types
pub mod Util
pub mod Flow
pub mod Store
pub mod Queues
pub mod Delivery
pub mod Withhold
pub mod Insert
pub mod Ack
pub mod Session
pub mod Counts
pub mod Quota
pub mod Incoming
