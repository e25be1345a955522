-- ===== src/Http2/Handlers.antt =====
-- The request handlers of src/api-server/nssf-http2-server.cpp. The configuration is a global: it is an
-- argument, and the result of the handler that might change it.
pub mod Replies
pub mod Availability
use oai_cn5g_nssf.Base.{
  ℕ, String, Bool, Option, none, some, ◌||◌, ◌==◌, nat_equality, string_equality, if◌then◌else◌,
}
use oai_cn5g_nssf.Model.{Model}
use oai_cn5g_nssf.Config.{NssfConfig}
use oai_cn5g_nssf.Config.Apis.{list_apis}
use oai_cn5g_nssf.App
use oai_cn5g_nssf.Server.{Sbi, nf_type_amf, nf_type_nssf}
use oai_cn5g_nssf.Server.Action.{Action, pure, emit, ◌>>=◌, ◌>>◌}

-- The calls that a handler makes on its response, `write_head` and `end`; a head has a content type or no
-- header, an end has a body or none. What the library sends for them is its own: a response that has been
-- ended can take no second end.
pub data Event : Type 0 where
  write_head : ℕ → Option String → Event
  end_body : Option String → Event

abbrev pub json_type : String
json_type = "application/json"

abbrev pub problem_type : String
problem_type = "application/problem+json"

-- Only these consumers are served.
abbrev pub is_served : String → Bool
is_served nf_type = nf_type == nf_type_amf || nf_type == nf_type_nssf

abbrev pub send : ℕ → Option String → Option String → Action Event (Unit {0})
send code content_type body = do emit (write_head code content_type); emit (end_body body)

module _ (m : Model) (sbi : Sbi m) where
  open m use {location.{PlmnId, Tai}, RegistrationInfo, PduSessionInfo, AvailabilityInfo}

  unfoldable pub get_slice_info_for_registration_handler :
      NssfConfig m → String → RegistrationInfo → Tai → PlmnId → Action Event (Unit {0})
  get_slice_info_for_registration_handler cfg nf_type slice_info tai home_plmnid =
      let reply =
        App.handle_slice_info_for_registration m cfg slice_info tai home_plmnid 0 m.problem.init
          m.auth.init in
      if is_served nf_type
      then (if reply.http_code == m.status.ok_code
          then send reply.http_code (some json_type) (some (sbi.dump_auth reply.auth_slice_info))
          else send reply.http_code (some json_type)
              (some (sbi.dump_problem reply.problem_details)))
      else send m.status.bad_request (some json_type) none

  unfoldable pub get_slice_info_for_pdu_session_handler :
      NssfConfig m → String → PduSessionInfo → Tai → PlmnId → Action Event (Unit {0})
  get_slice_info_for_pdu_session_handler cfg nf_type slice_info tai home_plmnid =
      let reply =
        App.handle_slice_info_for_pdu_session m cfg slice_info tai home_plmnid 0 m.problem.init
          m.auth.init in
      if is_served nf_type
      then (if reply.http_code == m.status.ok_code
          then send reply.http_code (some json_type) (some (sbi.dump_auth reply.auth_slice_info))
          else send reply.http_code (some json_type)
              (some (sbi.dump_problem reply.problem_details)))
      else send m.status.bad_request (some json_type) none

  unfoldable pub get_slice_info_for_ue_cu_handler :
      String → sbi.SliceInfoForUeCu → Tai → PlmnId → Action Event (Unit {0})
  get_slice_info_for_ue_cu_handler nf_type slice_info tai home_plmnid =
      send m.status.service_unavailable none (some "API not implemented yet !!!")

  unfoldable pub get_slice_info_default_handler : String → Tai → PlmnId → Action Event (Unit {0})
  get_slice_info_default_handler nf_type tai home_plmnid = pure tt

  unfoldable pub create_nssai_availability_handler :
      NssfConfig m → String → AvailabilityInfo → Action Event (NssfConfig m)
  create_nssai_availability_handler cfg nf_id info =
      let reply = App.handle_create_nssai_availability m cfg nf_id info 0 m.problem.init in
      let code = reply.http_code in
      if code == m.status.no_content
      then (do send code none none; pure reply.nssf_cfg)
      else if code == m.status.ok_code
      then (do
        send code (some json_type) (some (sbi.dump_auth_availability m.auth_availability_init))
        pure reply.nssf_cfg)
      else (do
        send code (some problem_type) (some (sbi.dump_problem reply.problem_details))
        pure reply.nssf_cfg)

  -- The status code and the headers are prepared, and nothing is sent.
  unfoldable pub get_slice_config : Action Event (Unit {0})
  get_slice_config = pure tt

  unfoldable pub get_api_list : Action Event (Unit {0})
  unfolding list_apis
  get_api_list =
      let (listed, apis) = list_apis sbi.ns_selection_base sbi.network_slice_information_path in
      if listed
      then send m.status.ok_code (some json_type) (some (sbi.dump_api_list apis))
      else send m.status.service_unavailable (some json_type) none
