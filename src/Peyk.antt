-- ===== src/Peyk.antt =====
-- crates/peyk: the wire protocol of blobs and the swarm task.
pub mod Link
pub mod Frame
pub mod Blake3
pub mod Events
pub mod Protocol
pub mod Swarm
pub mod Behaviour
pub mod Transfer
