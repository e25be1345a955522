-- ===== src/Selection.antt =====
-- Network slice selection: src/nssf_app/nssf_slice_selection.cpp, one child for each group of its
-- functions. A reference parameter that a function writes is an argument and a result.
pub mod Compare
pub mod AmfSets
pub mod Plmn
pub mod Lookup
pub mod Handlers
