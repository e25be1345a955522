-- ===== src/Http1.antt =====
-- The HTTP/1 server: the handlers of src/api-server/impl, and the generated code of src/api-server/api
-- that calls them.
pub mod Pistache
pub mod Operations
pub mod Impl
pub mod Api
pub mod Routes
pub mod Server
pub mod Endpoint
