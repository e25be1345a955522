-- ===== src/Http1/Impl.antt =====
-- The classes of src/api-server/impl. The configuration is a global, and so an argument.
pub mod Replies
use oai_cn5g_nssf.Base.{
  ℕ, String, Bool, not, Option, none, some, List, ◌==◌, nat_equality, if◌then◌else◌,
}
use oai_cn5g_nssf.Model.{Model}
use oai_cn5g_nssf.Config.{NssfConfig}
use oai_cn5g_nssf.Config.Apis.{list_apis}
use oai_cn5g_nssf.App
use oai_cn5g_nssf.App.{SelectionAnswer}
use oai_cn5g_nssf.Server.{Sbi}
use oai_cn5g_nssf.Server.Action.{Action, pure, emit, ◌>>=◌, ◌>>◌}
use oai_cn5g_nssf.Http1.Pistache.{
  Event, add_content_type, send_reply, Pistache, code_service_unavailable,
}

abbrev pub value_or : {A : Type 0} → A → Option A → A
value_or a none = a
value_or a (some b) = b

-- A reply with a content type.
abbrev pub reply : String → ℕ → Option String → Action Event (Unit {0})
reply content_type code body = do emit (add_content_type content_type); emit (send_reply code body)

-- The body of the operations that are still to be written.
unfoldable pub not_implemented : Action Event (Unit {0})
not_implemented = emit (send_reply code_service_unavailable (some "API NOT IMPLEMENTED\n"))

module _ (m : Model) (sbi : Sbi m) (p : Pistache m) where
  open m use {location.{PlmnId, Tai}, RegistrationInfo, PduSessionInfo, AvailabilityInfo}

  -- `NetworkSliceInformationDocumentApiImpl::n_s_selection_get`: both handlers of the application run
  -- if both parameters are given, and the second starts from what the first left.
  unfoldable pub selection_answer :
      NssfConfig m
      → Option RegistrationInfo
      → Option PduSessionInfo
      → PlmnId
      → Tai
      → SelectionAnswer m
  selection_answer cfg reg pdu home tai =
      let start : SelectionAnswer m = record {
        http_code = 0;
        problem_details = m.problem.init;
        auth_slice_info = m.auth.init;
      } in
      let out = after_pdu start pdu in after_registration out reg
    where
      after_pdu : SelectionAnswer m → Option PduSessionInfo → SelectionAnswer m
      after_pdu a none = a
      after_pdu a (some info) =
          App.handle_slice_info_for_pdu_session m cfg info tai home a.http_code a.problem_details
            a.auth_slice_info

      after_registration : SelectionAnswer m → Option RegistrationInfo → SelectionAnswer m
      after_registration a none = a
      after_registration a (some info) =
          App.handle_slice_info_for_registration m cfg info tai home a.http_code a.problem_details
            a.auth_slice_info

  unfoldable pub n_s_selection_get :
      NssfConfig m
      → Option p.NfType
      → Option RegistrationInfo
      → Option PduSessionInfo
      → Option PlmnId
      → Option Tai
      → Action Event (Unit {0})
  unfolding selection_answer
  n_s_selection_get cfg none reg pdu home tai = emit (send_reply m.status.bad_request none)
  n_s_selection_get cfg (some nf_type) reg pdu home tai =
      let out =
        selection_answer cfg reg pdu (value_or m.location.plmn_id_init home)
          (value_or m.location.tai_init tai) in
      if not (out.http_code == m.status.ok_code)
      then reply "application/problem+json" out.http_code
          (some (sbi.dump_problem out.problem_details))
      else reply "application/json" out.http_code (some (sbi.dump_auth out.auth_slice_info))

  unfoldable pub n_ssai_availability_put :
      NssfConfig m → String → AvailabilityInfo → Action Event (NssfConfig m)
  n_ssai_availability_put cfg nf_id info =
      let out = App.handle_create_nssai_availability m cfg nf_id info 0 m.problem.init in
      if not (out.http_code == m.status.ok_code)
      then (do
        reply "application/problem+json" out.http_code (some (sbi.dump_problem out.problem_details))
        pure out.nssf_cfg)
      else (do
        reply "application/json" out.http_code
            (some (sbi.dump_auth_availability m.auth_availability_init))
        pure out.nssf_cfg)

  unfoldable pub n_ssai_availability_delete : String → Action Event (Unit {0})
  n_ssai_availability_delete nf_id = not_implemented

  unfoldable pub n_ssai_availability_patch : String → List sbi.PatchItem → Action Event (Unit {0})
  n_ssai_availability_patch nf_id items = not_implemented

  unfoldable pub n_ssai_availability_options : Action Event (Unit {0})
  n_ssai_availability_options = not_implemented

  unfoldable pub n_ssai_availability_post : p.Subscription → Action Event (Unit {0})
  n_ssai_availability_post subscription = not_implemented

  unfoldable pub n_ssai_availability_sub_modify_patch :
      String → List sbi.PatchItem → Action Event (Unit {0})
  n_ssai_availability_sub_modify_patch subscription_id items = not_implemented

  unfoldable pub n_ssai_availability_unsubscribe : String → Action Event (Unit {0})
  n_ssai_availability_unsubscribe subscription_id = not_implemented

  unfoldable pub nssf_slice_config_get_apis : Action Event (Unit {0})
  unfolding list_apis
  nssf_slice_config_get_apis =
      let (listed, apis) = list_apis sbi.ns_selection_base sbi.network_slice_information_path in
      reply "application/json" m.status.ok_code (some (sbi.dump_api_list apis))

  unfoldable pub nssf_slice_config_get : Action Event (Unit {0})
  nssf_slice_config_get = reply "application/json" m.status.service_unavailable none
