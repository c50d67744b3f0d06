-- ===== src/Cookie.antt =====
-- cookie/cookie.go, cookie/jar.go and cookie/memory_jar.go: the attributes of a cookie and its rules in
-- `Rules`, and the in-memory jar in `Jar`.
pub mod Rules
pub mod Jar
mod Tests
