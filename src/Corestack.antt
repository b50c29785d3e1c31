-- ===== src/Corestack.antt =====
-- The shared half of the program: corestack.
pub mod Queue
pub mod Sockets
pub mod Clients
pub mod Hypertext
pub mod Htttp
pub mod Message
pub mod EventBus
