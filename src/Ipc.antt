-- ===== src/Ipc.antt =====
-- src/backend/cpp/src/ipc_client.cpp: the daemon's connection to the coordinator.
pub mod Port
pub mod Frame
pub mod Client
pub mod Wire
pub mod Exchange
pub mod Delivery
pub mod Sending
pub mod Ownership
pub mod Windows
pub mod Winsock
pub mod Interface
pub mod Observed
pub mod Startups
pub mod Leaks
pub mod Locks
pub mod Guards
pub mod Exclusion
pub mod Order
pub mod Deadlock
