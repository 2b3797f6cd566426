-- ===== src/Cluster.antt =====
-- packages/evoid-cluster: nodes, the service registry, routing and health.
pub mod Node
pub mod Registry
pub mod Health
pub mod Router
pub mod Protocol
pub mod Bridge
