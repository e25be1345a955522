-- ===== src/Selection/Handlers/Extend.antt =====
-- A configuration with more entries behind those of another: what was granted stays granted.
use oai_cn5g_nssf.Base.{
  ℕ, ◌≡◌, refl, List, ◌++◌, nat_equality, string_equality, Bool-cases, inl, inr, arith,
}
use oai_cn5g_nssf.Model.{Model}
use oai_cn5g_nssf.Config.{NsiInfo, TaInfo, AmfInfo, NssfConfig}
use oai_cn5g_nssf.Selection.AmfSets.{get_valid_amfset}
use oai_cn5g_nssf.Selection.AmfSets.Extend.{get_valid_amfset-append}
use oai_cn5g_nssf.Selection.Plmn.{validate_rnssai_in_plmn, validate_rnssai_in_ta}
use oai_cn5g_nssf.Selection.Lookup.{validate_nsi}
use oai_cn5g_nssf.Selection.Lookup.Extend.{validate_nsi-append, validate_ta-append}
use oai_cn5g_nssf.Selection.Handlers.{
  select_requested, select_nsi, handle_slice_info_for_registration,
  handle_slice_info_for_pdu_session,
}

module _ (m : Model) where
  open m use {
    location.{PlmnId, Tai, get_tac},
    RegistrationInfo,
    PduSessionInfo,
    get_requested_nssai,
  }

  -- The second configuration has the entries of the first, and maybe more behind them.
  pub record Extends (cfg cfg' : NssfConfig m) : Type 0 where
    pub more_nsi : List (NsiInfo m)
    pub more_ta : List (TaInfo m)
    pub more_amf : List (AmfInfo m)
    pub nsi : cfg'.nsi_info_list ≡ cfg.nsi_info_list ++ more_nsi
    pub ta : cfg'.ta_info_list ≡ cfg.ta_info_list ++ more_ta
    pub amf : cfg'.amf_info_list ≡ cfg.amf_info_list ++ more_amf

  module _ (cfg cfg' : NssfConfig m) (ext : Extends cfg cfg') (tai : Tai) (home : PlmnId) where
    select_requested-Extends :
        (info : RegistrationInfo) (auth : m.auth.Object)
        → (select_requested m cfg info 0 auth).http_code ≡ 200
        → select_requested m cfg' info 0 auth ≡ select_requested m cfg info 0 auth
    unfolding select_requested
    select_requested-Extends info auth granted =
        let (in_plmn, auth₁) = validate_rnssai_in_plmn m info auth in
        let (in_ta, auth₂) = validate_rnssai_in_ta m info auth₁ in
        let rs = get_requested_nssai info in
        elim (Bool-cases (get_valid_amfset m cfg rs auth₂).0) [
          | inl found ↦
              rw (get_valid_amfset-append m cfg cfg' ext.more_amf rs auth₂ ext.amf found) refl
          | inr missing ↦ absurd (ground (arith, granted, missing, m.status.is_403))
        ]

    -- A registration that is granted is granted under an extended configuration too, with the same answer.
    pub registration-Extends :
        (info : RegistrationInfo) (auth : m.auth.Object)
        → (handle_slice_info_for_registration m cfg info tai home 0 auth).http_code ≡ 200
        → handle_slice_info_for_registration m cfg' info tai home 0 auth
          ≡ handle_slice_info_for_registration m cfg info tai home 0 auth
    unfolding handle_slice_info_for_registration
    registration-Extends info auth granted = ground (
      arith,
      granted,
      m.status.is_503,
      validate_ta-append m cfg cfg' ext.more_ta tai ext.ta,
      select_requested-Extends info auth,
    )

    select_nsi-Extends :
        (info : PduSessionInfo) (auth : m.auth.Object)
        → (select_nsi m cfg info auth).http_code ≡ 200
        → select_nsi m cfg' info auth ≡ select_nsi m cfg info auth
    unfolding select_nsi
    select_nsi-Extends info auth granted =
        elim (Bool-cases (validate_nsi m cfg info m.nsi.init).0) [
          | inl found ↦
              rw (validate_nsi-append m cfg cfg' ext.more_nsi info m.nsi.init ext.nsi found) refl
          | inr missing ↦ absurd (ground (arith, granted, missing, m.status.is_400))
        ]

    pub session-Extends :
        (info : PduSessionInfo) (code : ℕ) (auth : m.auth.Object)
        → (handle_slice_info_for_pdu_session m cfg info tai home code auth).http_code ≡ 200
        → handle_slice_info_for_pdu_session m cfg' info tai home code auth
          ≡ handle_slice_info_for_pdu_session m cfg info tai home code auth
    unfolding handle_slice_info_for_pdu_session
    session-Extends info code auth granted = ground (
      arith,
      granted,
      m.status.is_503,
      m.status.is_400,
      validate_ta-append m cfg cfg' ext.more_ta tai ext.ta,
      select_nsi-Extends info auth,
    )
