-- ===== src/Examples.antt =====
-- Concrete instances of what the models take from outside, and runs of the models on them.
pub mod Instances
mod Transfers
mod Swarms
mod Bridges
mod Pipelines
mod Servers
mod Clients
mod Nodes
mod Systems
