-- ===== src/Program.antt =====
-- The program around the servers: the command line, the start and the end (src/oai_nssf).
pub mod Options
pub mod Main
pub mod Whole
pub mod Service
pub mod Slices
pub mod Registration
