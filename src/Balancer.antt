-- ===== src/Balancer.antt =====
-- resiliency/loadbalancer/loadbalancer.go: the pool of backends and its three strategies.
pub mod Pool
pub mod Attempts
pub mod Order
pub mod Call
pub mod Failover
pub mod Statistics
mod Tests
