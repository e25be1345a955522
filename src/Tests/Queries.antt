-- ===== src/Tests/Queries.antt =====
-- Registrations asked of the HTTP/2 server: under a parsed configuration, and under one that is extended.
use oai_cn5g_nssf.Base.{
  ◌≡◌, refl, inl, inr, true, false, some, [], ◌∷◌, ◌++◌, ◌==◌, string_equality, if◌then◌else◌,
}
use oai_cn5g_nssf.Config.{NssfConfig}
use oai_cn5g_nssf.Config.Parse.{returned}
use oai_cn5g_nssf.Config.Start.{nssf_config_init, from_yaml, init}
use oai_cn5g_nssf.App
use oai_cn5g_nssf.Selection.Compare.{compare_snssai}
use oai_cn5g_nssf.Selection.AmfSets.{get_valid_amfset}
use oai_cn5g_nssf.Selection.Plmn.{validate_rnssai_in_plmn}
use oai_cn5g_nssf.Selection.Lookup.{validate_ta}
use oai_cn5g_nssf.Selection.Handlers.{handle_slice_info_for_registration}
use oai_cn5g_nssf.Selection.Handlers.Registration.{Unsupported}
use oai_cn5g_nssf.Selection.Handlers.Codes.{SubscribesToSome}
use oai_cn5g_nssf.Selection.Handlers.Extend.{Extends}
use oai_cn5g_nssf.Server.{Sbi}
use oai_cn5g_nssf.Server.Action.{ok}
use oai_cn5g_nssf.Http2.Handlers.{write_head, end_body, get_slice_info_for_registration_handler}
use oai_cn5g_nssf.Http2.Routes.{on_slice_information}
use oai_cn5g_nssf.Http2.Routes.Extend.{granted_stays}
use oai_cn5g_nssf.Http2.Routes.Registration.{AsksRegistration}
use oai_cn5g_nssf.Http2.Server.Session.{Reach}
use oai_cn5g_nssf.Program.Registration.{Serves, configured_registration_served}
use oai_cn5g_nssf.Tests.Concrete.{
  concrete, concrete_sbi, no_plmn, RegistrationAttributes, TaiAttributes,
}
use oai_cn5g_nssf.Tests.Document.{tree_yaml, tree_base, settings, amf_set, all_described}
use oai_cn5g_nssf.Tests.Selection.{config, slice_222}

-- A registration for one slice, and a query of an AMF for it, with no other parameter.
abbrev request : RegistrationAttributes
request = record {
  request_mapping = false;
  requested = some (slice_222 ∷ []);
  subscribed = some (slice_222 ∷ []);
}

abbrev query_sbi : Sbi concrete
query_sbi = record concrete_sbi {
  get_query_param = λ qs name.
      if name == "nf-type"
      then "AMF"
      else if name == "slice-info-request-for-registration"
      then qs
      else "";
  parse_registration = λ s. ok request;
}

abbrev no_tai : TaiAttributes
no_tai = record { plmn_id = no_plmn; tac = "" }

asks : AsksRegistration concrete query_sbi "info" request no_plmn no_tai
asks = record { served = refl; asks = refl; is_info = refl; is_home = refl; is_tai = refl }

supported : ¬ Unsupported concrete request no_plmn
supported (inl e) = cc
supported (inr (inl e)) = cc
supported (inr (inr e)) = e refl

subscribes : SubscribesToSome concrete request
unfolding compare_snssai
subscribes = refl

configured_registration_served_example :
    (cfg : NssfConfig concrete) × (init tree_yaml concrete tree_base "nssf.yaml"
        (nssf_config_init concrete)
      ≡ returned true cfg)
    × ((now : NssfConfig concrete)
        → Reach concrete query_sbi cfg now
        → Serves concrete tree_yaml tree_base query_sbi now "info" request amf_set)
unfolding from_yaml
configured_registration_served_example =
    configured_registration_served concrete tree_yaml tree_base query_sbi "nssf.yaml"
      (record { m_slice_config_path = "nssf_slice_config.yaml" }) settings refl all_described "info"
      request no_plmn no_tai amf_set asks supported (refl, refl) subscribes (inl refl) refl

-- The configuration of the tests with one more AMF set.
abbrev extended : NssfConfig concrete
extended = record config {
  amf_info_list =
      config.amf_info_list
      ++ record {
        target_amf_set = "new";
        nrf_amf_set = "nrf-c";
        nrf_amf_set_mgt = "mgt-c";
        amf_list = [];
      }
        ∷ [];
}

extends : Extends concrete config extended
extends = record { more_nsi = []; more_ta = []; more_amf = _; nsi = refl; ta = refl; amf = refl }

granted_now :
    on_slice_information concrete query_sbi config "GET" "info" []
    ≡ (ok tt, write_head 200 (some "application/json") ∷ end_body (some "auth") ∷ [])
unfolding on_slice_information get_slice_info_for_registration_handler
    App.handle_slice_info_for_registration handle_slice_info_for_registration
    validate_rnssai_in_plmn get_valid_amfset validate_ta compare_snssai
    oai_cn5g_nssf.Selection.Plmn.validate_rnssai_in_ta
granted_now = refl

granted_stays_example :
    on_slice_information concrete query_sbi extended "GET" "info" []
    ≡ (ok tt, write_head 200 (some "application/json") ∷ end_body (some "auth") ∷ [])
granted_stays_example =
    granted_stays concrete query_sbi config extended extends "GET" "info" (some "application/json")
      (some "auth") granted_now []
