-- ===== src/Selection/Handlers.antt =====
-- The two handlers of src/nssf_app/nssf_slice_selection.cpp. Logging is left out, and so are the
-- parameters that a body does not read (`features`, `problem_details`) or only logs (`http_version`).
pub mod Registration
pub mod PduSession
pub mod Codes
pub mod SessionCodes
pub mod Configured
pub mod Bounds
pub mod Alike
pub mod Order
pub mod Slices
pub mod Sessions
pub mod Extend
pub mod Assigned
use oai_cn5g_nssf.Base.{
  ℕ, String, Bool, true, false, not, ◌&&◌, ◌==◌, nat_equality, string_equality, if◌then◌else◌,
}
use oai_cn5g_nssf.Model.{Model}
use oai_cn5g_nssf.Config.{NssfConfig}
use oai_cn5g_nssf.Selection.AmfSets.{get_valid_amfset}
use oai_cn5g_nssf.Selection.Plmn.{validate_rnssai_in_plmn, validate_rnssai_in_ta}
use oai_cn5g_nssf.Selection.Lookup.{validate_nsi, validate_ta}

-- `ROAMING_IND_NON_ROAMING` of src/common/nssf.h
abbrev pub roaming_ind_non_roaming : ℕ
roaming_ind_non_roaming = 1

-- `std::string::empty`
abbrev pub is_empty : String → Bool
is_empty s = s == ""

-- What a handler leaves behind: its result, the status code and the answer.
pub record Selected (m : Model) : Type 0 where
  pub authorised : Bool
  pub http_code : ℕ
  pub auth_slice_info : m.auth.Object

module _ (m : Model) where
  open m use {
    location.{PlmnId, get_plmn, Tai, get_tac},
    RegistrationInfo,
    request_mapping_is_set,
    mapping_of_nssai_is_set,
    requested_nssai_is_set,
    get_requested_nssai,
    subscribed_nssai_is_set,
    PduSessionInfo,
    roaming_indication,
  }

  -- Step 4 of `handle_slice_info_for_registration`.
  pub select_requested : NssfConfig m → RegistrationInfo → ℕ → m.auth.Object → Selected m
  select_requested cfg slice_info http_code auth =
      if requested_nssai_is_set slice_info && subscribed_nssai_is_set slice_info
      then (let forbidden = m.status.forbidden in
          let (in_plmn, auth₁) = validate_rnssai_in_plmn m slice_info auth in
          let (in_ta, auth₂) = validate_rnssai_in_ta m slice_info auth₁ in
          let (found, auth₃) = get_valid_amfset m cfg (get_requested_nssai slice_info) auth₂ in
          if not in_plmn
          then record { authorised = false; http_code = forbidden; auth_slice_info = auth₁ }
          else if not in_ta
          then record { authorised = false; http_code = forbidden; auth_slice_info = auth₂ }
          else if not found
          then record { authorised = false; http_code = forbidden; auth_slice_info = auth₃ }
          else record { authorised = true; http_code = m.status.ok_code; auth_slice_info = auth₃ })
      else record { authorised = true; http_code = http_code; auth_slice_info = auth }

  unfoldable pub handle_slice_info_for_registration :
      NssfConfig m → RegistrationInfo → Tai → PlmnId → ℕ → m.auth.Object → Selected m
  unfolding select_requested
  handle_slice_info_for_registration cfg slice_info tai home_plmnid http_code auth =
      if request_mapping_is_set slice_info
      then unavailable
      else if mapping_of_nssai_is_set slice_info
      then unavailable
      else if not (is_empty (get_plmn home_plmnid).mcc)
      then unavailable
      else if not (is_empty (get_tac tai)) && not (validate_ta m cfg tai)
      then record { authorised = false; http_code = http_code; auth_slice_info = auth }
      else select_requested cfg slice_info http_code auth
    where
      unavailable : Selected m
      unavailable = record {
        authorised = false;
        http_code = m.status.service_unavailable;
        auth_slice_info = auth;
      }

  -- The last step of `handle_slice_info_for_pdu_session`.
  pub select_nsi : NssfConfig m → PduSessionInfo → m.auth.Object → Selected m
  select_nsi cfg slice_info auth =
      let (found, nsi_info) = validate_nsi m cfg slice_info m.nsi.init in
      if found
      then record {
        authorised = true;
        http_code = m.status.ok_code;
        auth_slice_info = m.auth.set_nsi_information auth nsi_info;
      }
      else record { authorised = false; http_code = m.status.bad_request; auth_slice_info = auth }

  unfoldable pub handle_slice_info_for_pdu_session :
      NssfConfig m → PduSessionInfo → Tai → PlmnId → ℕ → m.auth.Object → Selected m
  unfolding select_nsi
  handle_slice_info_for_pdu_session cfg slice_info tai home_plmnid http_code auth =
      if not (roaming_indication slice_info == roaming_ind_non_roaming)
      then refused m.status.service_unavailable
      else if not (is_empty (get_plmn home_plmnid).mcc)
      then refused m.status.service_unavailable
      else if not (is_empty (get_tac tai)) && not (validate_ta m cfg tai)
      then refused m.status.bad_request
      else select_nsi cfg slice_info auth
    where
      refused : ℕ → Selected m
      refused code = record { authorised = false; http_code = code; auth_slice_info = auth }
