-- ===== src/Base/Text.antt =====
-- Appending strings, `operator+` of `std::string`.
use Prim.Native.String.{String, ◌++◌}

abbrev pub append : String → String → String
append s t = s ++ t
