-- ===== src/Tests/Pistache.antt =====
-- The HTTP/1 server over the configuration of the tests.
use oai_cn5g_nssf.Base.{String, refl, none, some}
use oai_cn5g_nssf.Tests.Concrete.{concrete, concrete_sbi, no_plmn}
use oai_cn5g_nssf.Tests.Selection.{config, ask, session, area}
use oai_cn5g_nssf.Server.Action.{ok, thrown, std_error}
use oai_cn5g_nssf.Http2.Handlers.{
  get_slice_info_for_registration_handler, get_slice_info_for_pdu_session_handler,
}
use oai_cn5g_nssf.Http1.Pistache.{Pistache}
use oai_cn5g_nssf.Http1.Impl.{n_s_selection_get}
use oai_cn5g_nssf.Http1.Impl.Replies.{Agree, servers-Agree}

-- A request is its NF type; it has no other parameter, and its body cannot be parsed.
abbrev pub concrete_pistache : Pistache concrete
concrete_pistache = record {
  Request = String;
  query = λ request name. some request;
  param = λ request name. ok name;
  body = λ request. "";
  Header = String;
  header = λ request name. none;
  NfType = String;
  nf_type_value = λ s. ok (some s);
  string_value = λ s. ok (some s);
  plmn_id_value = λ s. ok none;
  tai_value = λ s. ok none;
  validate_availability = λ i. ok tt;
  Subscription = Unit;
  parse_subscription = λ s. ok tt;
  validate_subscription = λ s. thrown (std_error "invalid");
}

servers-Agree_example :
    Agree concrete concrete_sbi
      (n_s_selection_get concrete concrete_sbi concrete_pistache config
        (some "AMF")
        (some ask)
        none
        (some no_plmn)
        (some area))
      (get_slice_info_for_registration_handler concrete concrete_sbi config "AMF" ask area no_plmn)
    × Agree concrete concrete_sbi
        (n_s_selection_get concrete concrete_sbi concrete_pistache config
          (some "AMF")
          none
          (some session)
          (some no_plmn)
          (some area))
        (get_slice_info_for_pdu_session_handler concrete concrete_sbi config "AMF" session area
          no_plmn)
servers-Agree_example =
    servers-Agree concrete concrete_sbi concrete_pistache config "AMF" "AMF" area no_plmn ask
      session refl
