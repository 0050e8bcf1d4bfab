-- ===== src/Client.antt =====
-- bin/client: the HTTP bridge and the coordinator.
pub mod Messages
pub mod Services
pub mod Bridge
pub mod Coordinator
pub mod Config
pub mod Network
pub mod System
pub mod Supervision
pub mod Start
