-- ===== src/Examples.antt =====
-- Runs of the modelled packages on small inputs.
mod Cluster
mod Di
pub mod Messages
mod Bridge
mod Routing
mod Scheduler
mod Auth
mod Storage
mod Kv
mod Godot
mod Maubot
mod Tasks
mod Transport
