-- ===== src/Proxy.antt =====
-- proxy/proxy.go: the rotator of proxy clients with its sticky sessions and domain cooldowns, and the
-- router of domains. A call of Do is one step: what other calls do in the middle of it is not modelled.
pub mod Pool
pub mod Rotation
pub mod Router
pub mod Cooldown
pub mod Sticky
mod Rule
pub mod Served
pub mod Once
mod Tests
