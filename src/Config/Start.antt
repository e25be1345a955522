-- ===== src/Config/Start.antt =====
-- How the configuration comes to be when the program starts: the constructor and `nssf_config::init` of
-- src/nssf_app/nssf_config.cpp, and the class of src/nssf_app/nssf_config_types.cpp, which holds the path
-- of the slice configuration.
use oai_cn5g_nssf.Base.{String, Bool, false, Option, none, some, [], if◌then◌else◌}
use oai_cn5g_nssf.Model.{Model}
use oai_cn5g_nssf.Config.{NssfConfig}
use oai_cn5g_nssf.Config.Yaml.{Yaml, text_if_at, ◌>>=◌}
use oai_cn5g_nssf.Config.Parse.{Parsed, returned, thrown, parse_config}

-- `nssf_config_type`, with the attribute that it adds to its base class.
pub record NssfConfigType : Type 0 where
  pub m_slice_config_path : String

-- The class `config` of common-src: `config::init` reads the configuration file at a path, calls the
-- given function `from_yaml` on the NF that was added, whose state it may change, and returns its
-- result; `none` if it throws. `nf::from_yaml` of its class `nf` reads the fields that every NF has, which
-- nothing here uses; `none` if it throws.
pub record BaseConfig (y : Yaml) : Type 1 where
  pub nf_from_yaml : y.Node → Option (Unit {0})
  pub init : {S : Type 0} → (y.Node → S → Option S) → String → S → Option (Bool × S)

-- The constructor of `nssf_config`: the NF that it adds.
abbrev pub nssf_added : NssfConfigType
nssf_added = record { m_slice_config_path = "/openair-nssf/etc/nssf_slice_config.yaml" }

-- The initial values of the static lists.
abbrev pub nssf_config_init : (m : Model) → NssfConfig m
nssf_config_init m = record { nsi_info_list = []; ta_info_list = []; amf_info_list = [] }

abbrev pub get_slice_config_path : NssfConfigType → String
get_slice_config_path nssf = nssf.m_slice_config_path

module _ (y : Yaml) where
  abbrev path_from : NssfConfigType → Option String → NssfConfigType
  path_from nssf none = nssf
  path_from nssf (some path) = record { m_slice_config_path = path }

  -- `nssf_config_type::from_yaml`; none if it throws.
  unfoldable pub from_yaml : BaseConfig y → y.Node → NssfConfigType → Option NssfConfigType
  from_yaml base node nssf = do
    read ← base.nf_from_yaml node
    path ← text_if_at y node "slice_config_path"
    some (path_from nssf path)

  module _ (m : Model) (base : BaseConfig y) where
    -- The second operand of `&&` in `init`.
    abbrev pub and_parse : NssfConfig m → Option (Bool × NssfConfigType) → Parsed m
    and_parse cfg none = thrown cfg
    and_parse cfg (some (good, nssf)) =
        if good then parse_config m y (get_slice_config_path nssf) cfg else returned false cfg

    -- `nssf_config::init`, for the configuration file at the path.
    unfoldable pub init : String → NssfConfig m → Parsed m
    init path cfg = and_parse cfg (base.init (from_yaml base) path nssf_added)
