-- ===== src/Http1/Server/Selection/Handler.antt =====
-- How the generated handler for slice selection ends.
use oai_cn5g_nssf.Base.{
  String, ◌≡◌, refl, ◌⊎◌, inl, inr, Option, none, some, List, [], ◌∷◌, ◌++◌, nat_equality,
}
use oai_cn5g_nssf.Model.{Model}
use oai_cn5g_nssf.Config.{NssfConfig}
use oai_cn5g_nssf.Server.{Sbi}
use oai_cn5g_nssf.Server.Action.{Exception, Result, ok, thrown, Action, lift, ◌>>=◌}
use oai_cn5g_nssf.Http1.Pistache.{Event, send_reply, Pistache, what}
use oai_cn5g_nssf.Http1.Operations.{NetworkSliceInformationDocumentApi}
use oai_cn5g_nssf.Http1.Api.{
  always, query_value, default_handler, after_ue_cu, operation, handler, n_s_selection_get_handler,
}
use oai_cn5g_nssf.Http1.Server.{nssf_api_server}
use oai_cn5g_nssf.Http1.Server.Selection.{
  query_result, home_result, tai_result, features_result, Throws, Converted, SelectionReplies, ask,
  failed, ue_cu_refused, answered, home_throws, tai_throws, features_throws, nf_type_throws,
  nf_id_throws, registration_throws, pdu_session_throws, ue_cu_throws,
}
use oai_cn5g_nssf.Http1.Server.Selection.Operation.{n_s_selection_get-Answered}

module _ (m : Model) (sbi : Sbi m) (p : Pistache m) (cfg : NssfConfig m) (request : p.Request) where
  -- The action throws what some conversion throws, with nothing sent, or answers the request.
  unfoldable Ends : Action Event (Unit {0}) → Type 0
  Ends act =
      (es : List Event)
      → ((x : Exception) × (act es ≡ (thrown x, es)) × Throws m sbi p request x)
        ⊎ ((sent : List Event) × (act es ≡ (ok tt, es ++ sent))
            × SelectionReplies m sbi p request cfg sent)

  by_result :
      {A : Type 0} (r : Result (Option A)) (next : Option A → Action Event (Unit {0}))
      → ((x : Exception) → r ≡ thrown x → Throws m sbi p request x)
      → ((a : Option A) → r ≡ ok a → Ends (next a))
      → Ends (lift r >>= next)
  unfolding Ends
  by_result (ok a) next f g es = g a refl es
  by_result (thrown x) next f g es = inl (x, refl, f x refl)

  by_query :
      {A : Type 0} (convert : String → Result (Option A)) (text : Option String)
      (next : Option A → Action Event (Unit {0}))
      → ((x : Exception) → query_result convert text ≡ thrown x → Throws m sbi p request x)
      → ((a : Option A) → query_result convert text ≡ ok a → Ends (next a))
      → Ends (query_value convert text >>= next)
  unfolding Ends
  by_query convert none next f g es = g none refl es
  by_query convert (some text) next f g es = by_result (convert text) next f g es

  abbrev selection_api : NetworkSliceInformationDocumentApi m sbi p
  selection_api = (nssf_api_server m sbi p cfg).network_slice_information_document

  operation-Ends :
      (c : Converted m sbi p request) (home : Option m.location.PlmnId)
      (tai : Option m.location.Tai) (features : Option String)
      → ask m sbi p request "slice-info-request-for-ue-cu" ≡ none
      → home_result m sbi p request ≡ ok home
      → tai_result m sbi p request ≡ ok tai
      → features_result m sbi p request ≡ ok features
      → Ends (
          operation tt selection_api.exceptions
            (selection_api.n_s_selection_get c.nf_type c.nf_id c.reg c.pdu none home tai features))
  unfolding Ends nssf_api_server
  operation-Ends c home tai features no_ue_cu is_home is_tai is_features es =
      let (sent, e, a) =
        n_s_selection_get-Answered m sbi p cfg request c.nf_type c.reg c.pdu home tai es in
      inr (sent, rw e refl, answered c home tai features no_ue_cu is_home is_tai is_features a)

  after_ue_cu-Ends :
      (c : Converted m sbi p request) (text : Option String)
      → ask m sbi p request "slice-info-request-for-ue-cu" ≡ text
      → Ends (after_ue_cu m sbi p selection_api request c.nf_type c.nf_id c.reg c.pdu text)
  unfolding Ends after_ue_cu default_handler
  after_ue_cu-Ends c (some text) is_text = λ es. inr (_, refl, ue_cu_refused text c is_text refl)
  after_ue_cu-Ends c none is_text =
      by_query p.plmn_id_value (ask m sbi p request "home-plmn-id") _ (λ x. home_throws is_text)
        (λ home is_home.
          by_query p.tai_value (ask m sbi p request "tai") _ (λ x. tai_throws is_text)
            (λ tai is_tai.
              by_query p.string_value (ask m sbi p request "supported-features") _
                (λ x. features_throws is_text)
                (λ features e. operation-Ends c home tai features is_text is_home is_tai e)))

  handler_body-Ends : Ends (do
    nf_type ← query_value p.nf_type_value (ask m sbi p request "nf-type")
    nf_id ← query_value p.string_value (ask m sbi p request "nf-id")
    reg ← query_value (always sbi.parse_registration) (ask m sbi p request sbi.registration_param)
    pdu ←
        query_value
          (always sbi.parse_pdu_session)
          (ask m sbi p request "slice-info-request-for-pdu-session")
    ue_cu ←
        query_value (always sbi.parse_ue_cu) (ask m sbi p request "slice-info-request-for-ue-cu")
    after_ue_cu m sbi p selection_api request nf_type nf_id reg pdu
        (ask m sbi p request "slice-info-request-for-ue-cu"))
  handler_body-Ends =
      by_query p.nf_type_value (ask m sbi p request "nf-type") _ (λ x. nf_type_throws)
        (λ nf_type is_nf_type.
          by_query p.string_value (ask m sbi p request "nf-id") _ (λ x. nf_id_throws)
            (λ nf_id is_nf_id.
              by_query (always sbi.parse_registration) (ask m sbi p request sbi.registration_param)
                _ (λ x. registration_throws)
                (λ reg is_reg.
                  by_query (always sbi.parse_pdu_session)
                    (ask m sbi p request "slice-info-request-for-pdu-session") _
                    (λ x. pdu_session_throws)
                    (λ pdu is_pdu.
                      by_query (always sbi.parse_ue_cu)
                        (ask m sbi p request "slice-info-request-for-ue-cu") _ (λ x. ue_cu_throws)
                        (λ ue_cu is_ue_cu.
                          let c : Converted m sbi p request = record {
                            nf_type = nf_type;
                            nf_id = nf_id;
                            reg = reg;
                            pdu = pdu;
                            ue_cu = ue_cu;
                            is_nf_type = is_nf_type;
                            is_nf_id = is_nf_id;
                            is_reg = is_reg;
                            is_pdu = is_pdu;
                            is_ue_cu = is_ue_cu;
                          } in
                          after_ue_cu-Ends c (ask m sbi p request "slice-info-request-for-ue-cu")
                            refl)))))

  handler-Replies :
      (act : Action Event (Unit {0}))
      → Ends act
      → (es : List Event)
      → (sent : List Event) × (handler tt act es ≡ (ok tt, es ++ sent))
        × SelectionReplies m sbi p request cfg sent
  unfolding Ends
  handler-Replies act h es = elim (h es) [
    | inl (x, e, t) ↦ (send_reply 500 (some (what x)) ∷ [], rw e refl, failed x t refl)
    | inr (sent, e, r) ↦ (sent, rw e refl, r)
  ]

  -- The handler for slice selection answers every request in one of the ways of `SelectionReplies`.
  pub selection_handler-SelectionReplies :
      (es : List Event)
      → (sent : List Event) × (n_s_selection_get_handler m sbi p selection_api request es
          ≡ (ok tt, es ++ sent))
        × SelectionReplies m sbi p request cfg sent
  unfolding n_s_selection_get_handler
  selection_handler-SelectionReplies es = handler-Replies _ handler_body-Ends es
