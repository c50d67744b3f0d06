-- ===== src/Dns.antt =====
-- dns: the errors of a resolution, the cache in memory, and the resolvers that are made of others.
pub mod Error
pub mod Cache
pub mod Resolvers
pub mod StaleFirst
mod Tests
