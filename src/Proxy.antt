-- ===== src/Proxy.antt =====
-- Requests and the choice of a backend in the proxy: runtime/proxy/proxy_instance.cpp.
pub mod Http
pub mod Backends
