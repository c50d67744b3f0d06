-- ===== src/Stream.antt =====
-- realtime/stream/stream.go: the readers of streamed responses.
pub mod Lines
pub mod Sse
pub mod Grpc
mod Tests
