-- ===== src/Server.antt =====
-- multi_thread_server: the key-value server `cream` and the structures that it is built on.
pub mod Hash
pub mod Map
pub mod Queue
pub mod Expiring
pub mod Cream
