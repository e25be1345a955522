-- ===== src/Http1/Server/Selection/Session.antt =====
-- A request for a PDU session to the generated handler for slice selection.
use mathlib.Core.List.{append_assoc}
use oai_cn5g_nssf.Base.{
  String, ◌≡◌, refl, sym, Option, none, some, List, [], ◌∷◌, ◌++◌, nat_equality, arith, ◌==◌, true,
}
use oai_cn5g_nssf.Model.{Model}
use oai_cn5g_nssf.Config.{NssfConfig}
use oai_cn5g_nssf.App
use oai_cn5g_nssf.Server.{Sbi}
use oai_cn5g_nssf.Server.Action.{Result, ok, lift}
use oai_cn5g_nssf.Http1.Pistache.{Event, add_content_type, send_reply, Pistache}
use oai_cn5g_nssf.Http1.Impl.{value_or, selection_answer, n_s_selection_get}
use oai_cn5g_nssf.Http1.Api.{query_value, after_ue_cu, n_s_selection_get_handler}
use oai_cn5g_nssf.Http1.Server.{nssf_api_server}
use oai_cn5g_nssf.Http1.Server.Selection.{
  query_result, ask, nf_type_result, nf_id_result, pdu_session_result, home_result, tai_result,
  features_result,
}

module _ (m : Model) (sbi : Sbi m) (p : Pistache m) where
  -- The request is for a PDU session alone, and its query parameters can be converted.
  pub record AsksSession (request : p.Request) (info : m.PduSessionInfo)
      (home : Option m.location.PlmnId) (tai : Option m.location.Tai) : Type 0 where
    pub nf_type : p.NfType
    pub nf_id : Option String
    pub features : Option String
    pub is_nf_type : nf_type_result m sbi p request ≡ ok (some nf_type)
    pub is_nf_id : nf_id_result m sbi p request ≡ ok nf_id
    pub no_registration : ask m sbi p request sbi.registration_param ≡ none
    pub is_session : pdu_session_result m sbi p request ≡ ok (some info)
    pub no_ue_cu : ask m sbi p request "slice-info-request-for-ue-cu" ≡ none
    pub is_home : home_result m sbi p request ≡ ok home
    pub is_tai : tai_result m sbi p request ≡ ok tai
    pub is_features : features_result m sbi p request ≡ ok features

  query_value-lift :
      {A : Type 0} (convert : String → Result (Option A)) (text : Option String) (a : Option A)
      → query_result convert text ≡ ok a
      → query_value convert text ≡ lift (ok a)
  query_value-lift convert none a e = rw (sym e) refl
  query_value-lift convert (some text) a e = rw e refl

  module _ (cfg : NssfConfig m) (request : p.Request) (info : m.PduSessionInfo)
      (home : Option m.location.PlmnId) (tai : Option m.location.Tai) where
    -- The answer of the application to the request.
    abbrev pub session_answer : App.SelectionAnswer m
    session_answer =
        App.handle_slice_info_for_pdu_session m cfg info (value_or m.location.tai_init tai)
          (value_or m.location.plmn_id_init home) 0 m.problem.init m.auth.init

    -- A request for a PDU session that the application grants is answered with 200 and its answer.
    pub granted_session :
        AsksSession request info home tai
        → session_answer.http_code ≡ 200
        → (es : List Event)
        → n_s_selection_get_handler m sbi p
            (nssf_api_server m sbi p cfg).network_slice_information_document
            request
            es
          ≡ (
            ok tt,
            es
                ++ add_content_type "application/json"
                  ∷ send_reply 200 (some (sbi.dump_auth session_answer.auth_slice_info))
                  ∷ [],
          )
    unfolding n_s_selection_get_handler after_ue_cu nssf_api_server n_s_selection_get
        selection_answer
    granted_session asks granted es =
        let good : (session_answer.http_code == m.status.ok_code) ≡ true =
          ground (arith, granted, m.status.is_200) in
        rw (
          query_value-lift p.nf_type_value _ _ asks.is_nf_type,
          query_value-lift p.string_value _ _ asks.is_nf_id,
          asks.no_registration,
          query_value-lift _ _ _ asks.is_session,
          asks.no_ue_cu,
          query_value-lift p.plmn_id_value _ _ asks.is_home,
          query_value-lift p.tai_value _ _ asks.is_tai,
          query_value-lift p.string_value _ _ asks.is_features,
          good,
          granted,
          append_assoc,
        )
