-- ===== src/Tests.antt =====
-- Instances of the properties at concrete requests and a small configuration.
mod Concrete
mod Document
mod Config
mod Selection
mod Servers
mod Router
mod SliceRequests
mod Sessions
mod Requests
mod Slices
mod Queries
mod Program
mod Pistache
