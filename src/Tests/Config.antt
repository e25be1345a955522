-- ===== src/Tests/Config.antt =====
-- The parsing of a small slice configuration.
use oai_cn5g_nssf.Base.{ℕ, Any, ◌⊎◌, ◌≡◌, ◌↔◌, true, false, none, List, [], ◌∷◌, string_equality}
use oai_cn5g_nssf.Program.Options as Options
use oai_cn5g_nssf.Program.Options.{Options, GetoptLong, parse}
use oai_cn5g_nssf.Program.Main.{globals_init, main}
use oai_cn5g_nssf.Program.Main.LifeCycle.{Serves}
use oai_cn5g_nssf.Program.Whole.{host, IsConfigured, program_iff}
use oai_cn5g_nssf.Config.{AmfInfo, NssfConfig}
use oai_cn5g_nssf.Config.Parse.{returned, parse_config, parse_amf_info}
use oai_cn5g_nssf.Config.Parse.Loop.{All₂}
use oai_cn5g_nssf.Config.Parse.Amf.{HasAmfSetSettings, parse_amf_info_lem}
use oai_cn5g_nssf.Config.Parse.Whole.{
  HasSections, Adds, Succeeds, parse_config-Adds, parse_config_iff,
}
use oai_cn5g_nssf.Tests.Concrete.{concrete}
use oai_cn5g_nssf.Tests.Document.{
  tree_base, amf_section, tree_yaml, amf_sets, settings, empty, amf_sets_described, all_described,
}

parse_config-Adds_example :
    (cfg : NssfConfig concrete) × (parse_config concrete tree_yaml "nssf_slice_config.yaml" empty
      ≡ returned true cfg)
    × Adds concrete tree_yaml empty settings cfg
parse_config-Adds_example =
    parse_config-Adds concrete tree_yaml "nssf_slice_config.yaml" settings empty all_described

parse_config_iff_example :
    Succeeds concrete tree_yaml (parse_config concrete tree_yaml "no_such_file.yaml" empty)
    ↔ HasSections concrete tree_yaml "no_such_file.yaml"
parse_config_iff_example = parse_config_iff concrete tree_yaml "no_such_file.yaml" empty

parse_amf_info_lem_example :
    (items : List (AmfInfo concrete)) × (parse_amf_info concrete tree_yaml amf_section []
      ≡ (true, items))
    × All₂ (HasAmfSetSettings concrete tree_yaml) amf_sets items
parse_amf_info_lem_example =
    parse_amf_info_lem concrete tree_yaml amf_section amf_sets [] amf_sets_described

abbrev options : Options
options = record {
  libconfigcfg = false;
  log_stdout = false;
  log_rot_file_log = false;
  m_libconfigcfg = "";
  m_log_stdout = false;
  m_log_rot_file_log = false;
}

abbrev scan_config : GetoptLong
scan_config shorts longs argv = record { code = "c"; optarg = "config.yaml" } ∷ []

abbrev version : ℕ
version = 2

program_iff_example :
    Any
      (Serves none)
      (main
        (host concrete tree_yaml tree_base true version)
        globals_init
        (parse scan_config ("-c" ∷ "config.yaml" ∷ []) options)).effects
    ↔ ((o : Options) × (parse scan_config ("-c" ∷ "config.yaml" ∷ []) options
          ≡ Options.returned true o)
        × IsConfigured concrete tree_yaml tree_base true version o.m_libconfigcfg
        × (true ≡ true)
        × ((version ≡ 1) ⊎ (version ≡ 2)))
program_iff_example =
    program_iff concrete tree_yaml tree_base true version scan_config ("-c" ∷ "config.yaml" ∷ [])
      options globals_init
