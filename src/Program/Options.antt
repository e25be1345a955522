-- ===== src/Program/Options.antt =====
-- The options of the command line: src/oai_nssf/options.cpp. The static members are a record that is
-- passed on; what is printed is left out.
pub mod Accepted
use oai_cn5g_nssf.Base.{
  String, Bool, true, false, ◌&&◌, Option, none, some, List, [], ◌∷◌, ◌==◌, string_equality,
  if◌then◌else◌,
}

-- `struct option`, with its `val`, a character, as a string of that character.
pub record LongOption : Type 0 where
  pub name : String
  pub has_arg : Bool
  pub val : String

-- What one call of `getopt_long` returns, with `optarg`.
pub record Scanned : Type 0 where
  pub code : String
  pub optarg : String

-- `getopt_long`: what its calls return for the short options, the long options and the arguments, until
-- -1. An option that it does not know gives "?".
abbrev pub GetoptLong : Type 0
GetoptLong = String → List LongOption → List String → List Scanned

-- The static members. `options` has a bit for each of the options, which is a field here.
pub record Options : Type 0 where
  pub libconfigcfg : Bool
  pub log_stdout : Bool
  pub log_rot_file_log : Bool
  pub m_libconfigcfg : String
  pub m_log_stdout : Bool
  pub m_log_rot_file_log : Bool

-- The program exits, or the parsing returns.
pub data Outcome : Type 0 where
  exits : Outcome
  returned : Bool → Options → Outcome

unfoldable pub short_options : String
short_options = "horc:"

unfoldable pub long_options : List LongOption
long_options =
    record { name = "help"; has_arg = false; val = "h" }
    ∷ record { name = "libconfigcfg"; has_arg = true; val = "f" }
    ∷ record { name = "stdoutlog"; has_arg = false; val = "o" }
    ∷ record { name = "rotatelog"; has_arg = false; val = "r" }
    ∷ []

-- The `switch` in the loop: `none` where the program exits. The cases for "?" differ in what they print.
unfoldable pub switch_on : Scanned → Bool → Options → Option (Bool × Options)
switch_on s result o =
    if s.code == "h"
    then none
    else if s.code == "c"
    then some (result, record o { m_libconfigcfg = s.optarg; libconfigcfg = true })
    else if s.code == "o"
    then some (result, record o { m_log_stdout = true; log_stdout = true })
    else if s.code == "r"
    then some (result, record o { m_log_rot_file_log = true; log_rot_file_log = true })
    else some (false, o)

unfoldable pub switch_all : List Scanned → Bool → Options → Outcome
switch_all [] result o = returned result o
switch_all (s ∷ ss) result o = elim (switch_on s result o) [
  | none ↦ exits
  | some (result', o') ↦ switch_all ss result' o'
]

unfoldable pub parse_input_options : GetoptLong → List String → Options → Outcome
parse_input_options getopt_long argv o =
    switch_all (getopt_long short_options long_options argv) true o

unfoldable pub validate_options : Options → Bool
validate_options o = o.libconfigcfg

unfoldable pub parse : GetoptLong → List String → Options → Outcome
unfolding validate_options
parse getopt_long argv o = elim (parse_input_options getopt_long argv o) [
  | exits ↦ exits
  | returned ret o' ↦ returned (ret && validate_options o') o'
]
