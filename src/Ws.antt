-- ===== src/Ws.antt =====
-- realtime/ws/wsconn.go: the RFC 6455 framing of wsRawConn. Frames are in `Frame`, messages that are
-- put together from them in `Message`.
pub mod Frame
pub mod Message
mod Tests
