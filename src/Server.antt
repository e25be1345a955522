-- ===== src/Server.antt =====
-- What the two HTTP servers share: exceptions, effects on a response, and the interface to the
-- libraries that parse requests and print answers.
pub mod Action
use oai_cn5g_nssf.Base.{String, List, Bool}
use oai_cn5g_nssf.Model.{Model}
use oai_cn5g_nssf.Config.Apis.{ApiList}
use oai_cn5g_nssf.Server.Action.{Result}

-- `NF_TYPE_AMF`, `NF_TYPE_NSSF` and the names of the query parameters in src/common/nssf.h
abbrev pub nf_type_amf : String
nf_type_amf = "AMF"

abbrev pub nf_type_nssf : String
nf_type_nssf = "NSSF"

abbrev pub nf_type_param : String
nf_type_param = "nf-type"

abbrev pub home_plmn_id_param : String
home_plmn_id_param = "home-plmn-id"

abbrev pub tai_param : String
tai_param = "tai"

-- nlohmann::json with the generated `from_json` and `to_json`, `oai::utils::get_query_param`, the names
-- of `sbi_helper`, and `boost::split`. A parser throws on a text that is not what it expects.
pub record Sbi (m : Model) : Type 1 where
  pub SliceInfoForUeCu : Type 0
  pub PatchItem : Type 0
  pub get_query_param : String → String → String
  pub registration_param : String
  pub pdu_session_param : String
  pub parse_plmn_id : String → Result m.location.PlmnId
  pub parse_tai : String → Result m.location.Tai
  pub parse_registration : String → Result m.RegistrationInfo
  pub parse_pdu_session : String → Result m.PduSessionInfo
  pub parse_ue_cu : String → Result SliceInfoForUeCu
  pub parse_availability : String → Result m.AvailabilityInfo
  pub parse_patch_items : String → Result (List PatchItem)
  pub dump_auth : m.auth.Object → String
  pub dump_problem : m.problem.Object → String
  pub dump_auth_availability : m.AuthAvailabilityInfo → String
  -- `dump(4)` of the list of APIs
  pub dump_api_list : ApiList → String
  -- the API version of the configuration, and the names of `sbi_helper` for the parts of paths:
  -- `NssfNsSelectionBase`, `NssfNsSelectionPathNetworSliceInformation`, `NssfNssaiAvailabilityBase`,
  -- `NssfNssaiAvailabilityPathNssaiAvailability`, `NssfNssaiAvailabilityPathSubscriptions` and
  -- `NssfNssaiAvailabilityPathSubscriptionId`
  pub api_version : String
  pub ns_selection_base : String
  pub network_slice_information_path : String
  pub availability_base : String
  pub nssai_availability_path : String
  pub subscriptions_path : String
  pub subscription_id_path : String
  -- the parts of a path between its slashes
  pub split_path : String → List String
