-- ===== src/Ws.antt =====
-- The WebSocket protocol: socketley/shared/ws_protocol.h.
pub mod Mask
pub mod Frame
pub mod Handshake
pub mod RoundTrip
pub mod Client
