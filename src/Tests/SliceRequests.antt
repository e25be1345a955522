-- ===== src/Tests/SliceRequests.antt =====
-- Requests for slice selection to the HTTP/1 server over a router.
use oai_cn5g_nssf.Base.{
  String, ◌≡◌, refl, Option, none, some, List, [], ◌∷◌, ◌++◌, true, inl, inr, ◌==◌, string_equality,
  if◌then◌else◌,
}
use oai_cn5g_nssf.Server.{Sbi}
use oai_cn5g_nssf.Server.Action.{ok, thrown, std_error}
use oai_cn5g_nssf.Http1.Pistache.{Event, add_content_type, send_reply, Pistache}
use oai_cn5g_nssf.Http1.Api.{n_s_selection_get_handler, after_ue_cu}
use oai_cn5g_nssf.App
use oai_cn5g_nssf.Selection.Compare.{compare_snssai}
use oai_cn5g_nssf.Selection.AmfSets.{get_valid_amfset}
use oai_cn5g_nssf.Selection.Plmn.{validate_rnssai_in_plmn}
use oai_cn5g_nssf.Selection.Lookup.{validate_ta}
use oai_cn5g_nssf.Selection.Handlers.{handle_slice_info_for_registration}
use oai_cn5g_nssf.Http1.Impl.{n_s_selection_get, selection_answer}
use oai_cn5g_nssf.Http1.Server.{nssf_api_server}
use oai_cn5g_nssf.Http1.Server.Selection.{SelectionReplies}
use oai_cn5g_nssf.Http1.Routes.{Handler, http_get}
use oai_cn5g_nssf.Http1.Routes.Sequence.{Reach}
use oai_cn5g_nssf.Http1.Routes.Dispatch.{dispatch, selection_request-Replies}
use oai_cn5g_nssf.Tests.Concrete.{concrete, concrete_sbi}
use oai_cn5g_nssf.Tests.Selection.{config, ask, area}
use oai_cn5g_nssf.Config.{NssfConfig}
use oai_cn5g_nssf.Config.Parse.{returned}
use oai_cn5g_nssf.Config.Start.{from_yaml, init}
use oai_cn5g_nssf.Http1.Server.Selection.Session.{AsksSession}
use oai_cn5g_nssf.Program.Service.{configured_session_served}
use oai_cn5g_nssf.Tests.Document.{
  tree_yaml, tree_base, settings, empty, all_described, session, stays,
}
use oai_cn5g_nssf.Tests.Router.{concrete_router}

-- Every text is the registration `ask` and the PDU session `session`.
abbrev asking_sbi : Sbi concrete
asking_sbi = record concrete_sbi {
  parse_registration = λ s. ok ask;
  parse_pdu_session = λ s. ok session;
}

-- The query parameters: an NF type, a tracking area, and one of the two kinds of requests.
abbrev parameter : String → String → String → Option String
parameter asked nf_type name =
    if name == "nf-type"
    then some nf_type
    else if name == "tai"
    then some "area"
    else if name == asked
    then some "info"
    else none

-- A request is its NF type.
abbrev asking : String → Pistache concrete
asking asked = record {
  Request = String;
  query = parameter asked;
  param = λ request name. ok name;
  body = λ request. "";
  Header = String;
  header = λ request name. none;
  NfType = String;
  nf_type_value = λ s. ok (some s);
  string_value = λ s. ok (some s);
  plmn_id_value = λ s. ok none;
  tai_value = λ s. ok (some area);
  validate_availability = λ i. ok tt;
  Subscription = Unit;
  parse_subscription = λ s. ok tt;
  validate_subscription = λ s. thrown (std_error "invalid");
}

abbrev asking_pistache : Pistache concrete
asking_pistache = asking "slice-info-request-for-registration"

abbrev session_pistache : Pistache concrete
session_pistache = asking "slice-info-request-for-pdu-session"

-- A registration is granted.
registration_granted :
    n_s_selection_get_handler concrete asking_sbi asking_pistache
      (nssf_api_server concrete asking_sbi asking_pistache
        config).network_slice_information_document
      "AMF"
      []
    ≡ (ok tt, add_content_type "application/json" ∷ send_reply 200 (some "auth") ∷ [])
unfolding n_s_selection_get_handler after_ue_cu nssf_api_server n_s_selection_get selection_answer
    App.handle_slice_info_for_registration handle_slice_info_for_registration
    validate_rnssai_in_plmn get_valid_amfset validate_ta compare_snssai
    oai_cn5g_nssf.Selection.Plmn.validate_rnssai_in_ta
registration_granted = refl

selection_request-Replies_example :
    (h : Handler concrete asking_sbi asking_pistache) × (sent : List Event) × (dispatch concrete
        asking_sbi asking_pistache concrete_router http_get
        "/nnssf-nsselection/v1/network-slice-information"
      ≡ some h)
    × (h config "AMF" [] ≡ (ok config, sent))
    × SelectionReplies concrete asking_sbi asking_pistache "AMF" config sent
selection_request-Replies_example =
    selection_request-Replies concrete asking_sbi asking_pistache concrete_router
      "/nnssf-nsselection/v1/network-slice-information" config "AMF" [] refl refl refl

asks_session : AsksSession concrete asking_sbi session_pistache "SMF" session none (some area)
asks_session = record {
  nf_type = "SMF";
  nf_id = none;
  features = none;
  is_nf_type = refl;
  is_nf_id = refl;
  no_registration = refl;
  is_session = refl;
  no_ue_cu = refl;
  is_home = refl;
  is_tai = refl;
  is_features = refl;
}

configured_session_served_example :
    (cfg : NssfConfig concrete) × (h : Handler concrete asking_sbi session_pistache) × (init
        tree_yaml concrete tree_base "nssf.yaml" empty
      ≡ returned true cfg)
    × (dispatch concrete asking_sbi session_pistache concrete_router http_get
          "/nnssf-nsselection/v1/network-slice-information"
        ≡ some h)
    × ((later : NssfConfig concrete)
        → Reach concrete asking_sbi session_pistache concrete_router cfg later
        → (es : List Event)
        → h later "SMF" es ≡ (
          ok later,
          es ++ add_content_type "application/json" ∷ send_reply 200 (some "auth") ∷ [],
        ))
unfolding from_yaml
configured_session_served_example =
    configured_session_served concrete tree_yaml tree_base asking_sbi session_pistache
      concrete_router "nssf.yaml" (record { m_slice_config_path = "nssf_slice_config.yaml" })
      settings empty refl all_described "/nnssf-nsselection/v1/network-slice-information" "SMF"
      session none (some area) (refl, refl, refl) asks_session (inl refl) stays
      (inr (inl (refl, refl)))
