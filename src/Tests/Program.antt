-- ===== src/Tests/Program.antt =====
-- Command lines, and a start and an end of the program.
use oai_cn5g_nssf.Base.{
  String, ◌≡◌, ◌↔◌, ◌⊎◌, refl, true, false, some, List, [], ◌∷◌, Any, All, inl, inr,
}
use oai_cn5g_nssf.Program.Options.{Options, GetoptLong, LongOption, returned, parse, long_options}
use oai_cn5g_nssf.Program.Options.Accepted.{
  Accepts, IsKnown, IsConfig, IsLongConfig, parse_iff, long_libconfigcfg_refused,
}
use oai_cn5g_nssf.Program.Main.{Globals, globals_init, Host, nssf_app, main, my_app_signal_handler}
use oai_cn5g_nssf.Program.Main.LifeCycle.{
  Serves, CanServe, main_iff, Releases, my_app_signal_handler-Releases,
}

-- A scanner for one option with its argument.
abbrev scan : GetoptLong
scan shorts longs [] = []
scan shorts longs (o ∷ []) = record { code = "?"; optarg = "" } ∷ []
scan shorts longs (o ∷ value ∷ rest) = record { code = code_of longs; optarg = value } ∷ []
  where
    code_of : List LongOption → String
    code_of [] = "c"
    code_of (l ∷ []) = l.val
    code_of (k ∷ l ∷ ls) = l.val

abbrev short_scan : GetoptLong
short_scan shorts longs argv = record { code = "c"; optarg = "config.yaml" } ∷ []

abbrev no_options : Options
no_options = record {
  libconfigcfg = false;
  log_stdout = false;
  log_rot_file_log = false;
  m_libconfigcfg = "";
  m_log_stdout = false;
  m_log_rot_file_log = false;
}

parse_iff_example : Accepts (parse short_scan ("-c" ∷ "config.yaml" ∷ []) no_options) ↔ (
    All IsKnown (record { code = "c"; optarg = "config.yaml" } ∷ [])
    × ((no_options.libconfigcfg ≡ true)
        ⊎ Any IsConfig (record { code = "c"; optarg = "config.yaml" } ∷ [])))
parse_iff_example = parse_iff short_scan ("-c" ∷ "config.yaml" ∷ []) no_options

long_scanned : Any IsLongConfig (record { code = "f"; optarg = "config.yaml" } ∷ [])
unfolding long_options
long_scanned = inl (inr (inl (refl, refl)))

long_libconfigcfg_refused_example :
    ¬ Accepts (parse scan ("--libconfigcfg" ∷ "config.yaml" ∷ []) no_options)
unfolding long_options
long_libconfigcfg_refused_example =
    long_libconfigcfg_refused scan ("--libconfigcfg" ∷ "config.yaml" ∷ []) no_options long_scanned

abbrev host : Host
host = record { init = λ path. some true; lock_pid_file = true; http_version = 2 }

main_iff_example :
    Any
      (Serves globals_init.nssf_app_inst)
      (main host globals_init (returned true no_options)).effects
    ↔ ((o : Options) × (returned true no_options ≡ returned true o) × CanServe host o)
main_iff_example = main_iff host globals_init (returned true no_options)

abbrev running : Globals
running = record {
  nssf_app_inst = some nssf_app;
  nssf_api_server_1 = some record { app = some nssf_app };
  nssf_api_server_2 = globals_init.nssf_api_server_2;
}

my_app_signal_handler-Releases_example : Releases running (my_app_signal_handler running)
my_app_signal_handler-Releases_example = my_app_signal_handler-Releases running
