-- ===== src/Program/Whole.antt =====
-- From the command line and the files to the server: src/oai_nssf/main.cpp with the configuration of
-- src/nssf_app and the options of src/oai_nssf/options.cpp.
use oai_cn5g_nssf.Base.{
  ℕ, String, ◌≡◌, refl, sym, ap, subst, ◌↔◌, ◌⊎◌, Bool, true, false, Option, none, some, List, Any,
}
use oai_cn5g_nssf.Model.{Model}
use oai_cn5g_nssf.Config.{NssfConfig}
use oai_cn5g_nssf.Config.Yaml.{Yaml}
use oai_cn5g_nssf.Config.Parse.{Parsed, returned, thrown}
use oai_cn5g_nssf.Config.Parse.Whole.{HasSections, Succeeds, parse_config_iff}
use oai_cn5g_nssf.Config.Start.{
  BaseConfig, NssfConfigType, nssf_added, nssf_config_init, get_slice_config_path, from_yaml,
  and_parse, init,
}
use oai_cn5g_nssf.Program.Options as Options
use oai_cn5g_nssf.Program.Options.{Options, GetoptLong, parse}
use oai_cn5g_nssf.Program.Main.{Globals, Host, main}
use oai_cn5g_nssf.Program.Main.LifeCycle.{Serves, main_iff}

-- The result of a function that returns a Boolean value or throws.
abbrev pub result_of : {m : Model} → Parsed m → Option Bool
result_of (returned good cfg) = some good
result_of (thrown cfg) = none

module _ (m : Model) (y : Yaml) (base : BaseConfig y) (lock : Bool) (version : ℕ) where
  -- The program's own `nssf_config::init`, in an environment with a lock and an HTTP version.
  abbrev pub host : Host
  host = record {
    init = λ path. result_of (init y m base path (nssf_config_init m));
    lock_pid_file = lock;
    http_version = version;
  }

  -- The files from which the program can be configured: the base class reads the configuration file,
  -- which may name a file for the slice configuration, and that one has the three sections.
  abbrev pub IsConfigured : String → Type 0
  IsConfigured path =
      (nssf : NssfConfigType) × (base.init (from_yaml y base) path nssf_added ≡ some (true, nssf))
      × HasSections m y (get_slice_config_path nssf)

  result-Succeeds : (p : Parsed m) → (result_of p ≡ some true) ↔ Succeeds m y p
  result-Succeeds (returned true cfg) = ((λ e. (cfg, refl)), (λ h. refl))
  result-Succeeds (returned false cfg) = ((λ e. absurd (cc)), (λ (c, e). absurd (cc)))
  result-Succeeds (thrown cfg) = ((λ e. absurd (cc)), (λ (c, e). absurd (cc)))

  and_parse-Succeeds :
      (cfg : NssfConfig m) (r : Option (Bool × NssfConfigType))
      → Succeeds m y (and_parse y m base cfg r) ↔ (
          (nssf : NssfConfigType) × (r ≡ some (true, nssf))
          × HasSections m y (get_slice_config_path nssf))
  and_parse-Succeeds cfg none = ((λ (c, e). absurd (cc)), (λ (nssf, e, h). absurd (cc)))
  and_parse-Succeeds cfg (some (false, t)) =
      ((λ (c, e). absurd (cc)), (λ (nssf, e, h). absurd (cc)))
  and_parse-Succeeds cfg (some (true, t)) =
      let whole = parse_config_iff m y (get_slice_config_path t) cfg in
      (
        (λ h. (t, refl, whole.0 h)),
        (λ (nssf, e, h).
            whole.1 (subst (λ n. HasSections m y (get_slice_config_path n)) (sym (same e)) h)),
      )
    where
      added : Option (Bool × NssfConfigType) → NssfConfigType
      added none = t
      added (some p) = p.1

      read : NssfConfigType → Option (Bool × NssfConfigType)
      read nssf = some (true, nssf)

      same : {nssf : NssfConfigType} → read t ≡ read nssf → t ≡ nssf
      same e = ap added e

  init_iff : (path : String) → (host.init path ≡ some true) ↔ IsConfigured path
  unfolding init
  init_iff path =
      let r = base.init (from_yaml y base) path nssf_added in
      let out = and_parse y m base (nssf_config_init m) r in
      let (a, b) = result-Succeeds out in
      let (c, d) = and_parse-Succeeds (nssf_config_init m) r in ((λ h. c (a h)), (λ h. b (d h)))

  -- The program serves requests exactly if its command line is accepted, its configuration file can be
  -- read, the file for the slice configuration that this one names, or else the default one, can be loaded
  -- and has the three sections, the PID file can be locked, and the HTTP version is 1 or 2.
  pub program_iff :
      (getopt_long : GetoptLong) (argv : List String) (o : Options) (g : Globals)
      → Any (Serves g.nssf_app_inst) (main host g (parse getopt_long argv o)).effects ↔ (
          (o' : Options) × (parse getopt_long argv o ≡ Options.returned true o')
          × IsConfigured o'.m_libconfigcfg
          × (lock ≡ true)
          × ((version ≡ 1) ⊎ (version ≡ 2)))
  program_iff getopt_long argv o g =
      let (there, back) = main_iff host g (parse getopt_long argv o) in
      (
        (λ h.
            let (o', e, (f, locked, served)) = there h in
            (o', e, (init_iff o'.m_libconfigcfg).0 f, locked, served)),
        (λ (o', e, f, locked, served).
            back (o', e, ((init_iff o'.m_libconfigcfg).1 f, locked, served))),
      )
