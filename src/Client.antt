-- ===== src/Client.antt =====
-- src/client.rs: the asynchronous client, one child module for each of its parts.
pub mod Inspect
pub mod Platform
pub mod Challenge
pub mod Session
pub mod Polling
pub mod Builder
pub mod Flight
pub mod Responses
pub mod Requests
