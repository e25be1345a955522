-- ===== src/Config.antt =====
-- The slice configuration: the structs of src/nssf_app/nssf_config.hpp. The global `nssf_cfg` is an
-- argument of whatever reads it. Its parsing from YAML is in the children.
pub mod Apis
pub mod Yaml
pub mod Parse
pub mod Start
use oai_cn5g_nssf.Base.{String, List}
use oai_cn5g_nssf.Model.{Model}

-- `nsi_info_t`
pub record NsiInfo (m : Model) : Type 0 where
  pub snssai : m.snssai.Object
  pub nsi_info : m.nsi.Object

-- `ta_info_t`; its member `supoorted_snssai` is neither written nor read.
pub record TaInfo (m : Model) : Type 0 where
  pub tai : m.location.Tai

-- `amf_info_t`
pub record AmfInfo (m : Model) : Type 0 where
  pub target_amf_set : String
  pub nrf_amf_set : String
  pub nrf_amf_set_mgt : String
  pub amf_list : List (String × List m.AvailabilityData)

-- The static members `nssf_nsi_info`, `nssf_ta_info` and `nssf_amf_info` of `nssf_config`.
pub record NssfConfig (m : Model) : Type 0 where
  pub nsi_info_list : List (NsiInfo m)
  pub ta_info_list : List (TaInfo m)
  pub amf_info_list : List (AmfInfo m)
