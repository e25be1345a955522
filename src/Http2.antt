-- ===== src/Http2.antt =====
-- The HTTP/2 server: src/api-server/nssf-http2-server.cpp. One child for the handlers of requests, one
-- for the callbacks that read a request and choose its handler.
pub mod Handlers
pub mod Routes
pub mod Server
pub mod LifeCycle
