-- ===== src/Messaging.antt =====
-- src/include/messaging/: the payloads, the queue of shared pointers, and its two endpoints.
pub mod Message
pub mod Queue
pub mod Wakeups
pub mod Endpoint
mod Tests
