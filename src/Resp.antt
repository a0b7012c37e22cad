-- ===== src/Resp.antt =====
-- The RESP2 protocol: socketley/runtime/cache/resp_parser.h.
pub mod Encode
pub mod Decode
pub mod RoundTrip
pub mod Views
