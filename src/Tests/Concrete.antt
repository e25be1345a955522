-- ===== src/Tests/Concrete.antt =====
-- A model that meets every law: each generated class is the record of its attributes. The tests run
-- the program over it.
use oai_cn5g_nssf.Base.{ℕ, pos, String, refl, Bool, true, false, Option, none, some, List, [], ◌∷◌}
use oai_cn5g_nssf.Model.{
  Model, SnssaiAttributes, SnssaiClass, NssaiClasses, PlmnIdAttributes, LocationClasses,
  NsiAttributes, NsiClass, AuthAttributes, AuthClass, ProblemAttributes, ProblemClass,
}
use oai_cn5g_nssf.Server.{Sbi}
use oai_cn5g_nssf.Server.Action.{ok, thrown, json_error}

abbrev pub snssai_class : SnssaiClass
snssai_class = record {
  Object = SnssaiAttributes;
  get = λ s. s;
  init = record { sst = pos 0; sd = ""; sd_is_set = false };
  set_sst = λ s n. record s { sst = n };
  set_sd = λ s d. record s { sd = d; sd_is_set = true };
  init_unset = refl;
  init_sd = refl;
  get-set_sst = λ s n. refl;
  get-set_sd = λ s d. refl;
}

pub record AllowedAttributes : Type 0 where
  pub access_type : String
  pub snssai_list : List SnssaiAttributes

abbrev pub nssai_classes : NssaiClasses SnssaiAttributes
nssai_classes = record {
  SubscribedSnssai = SnssaiAttributes;
  get_subscribed_snssai = λ s. s;
  AllowedSnssai = SnssaiAttributes;
  allowed_snssai_init = record { sst = pos 0; sd = ""; sd_is_set = false };
  set_allowed_snssai = λ a s. s;
  get_allowed_snssai = λ a. a;
  get-set_allowed_snssai = λ a s. refl;
  AccessType = String;
  access_type_init = "";
  set_3gpp_access = λ t. "3GPP_ACCESS";
  AllowedNssai = AllowedAttributes;
  allowed_nssai_init = record { access_type = ""; snssai_list = [] };
  set_access_type = λ n t. record n { access_type = t };
  get_access_type = λ n. n.access_type;
  set_allowed_snssai_list = λ n l. record n { snssai_list = l };
  get_allowed_snssai_list = λ n. n.snssai_list;
  get-set_access_type = λ n t. refl;
  get_access_type-set_allowed_snssai_list = λ n l. refl;
  get-set_allowed_snssai_list = λ n l. refl;
}

pub record TaiAttributes : Type 0 where
  pub plmn_id : PlmnIdAttributes
  pub tac : String

abbrev pub no_plmn : PlmnIdAttributes
no_plmn = record { mcc = ""; mnc = "" }

abbrev pub location_classes : LocationClasses
location_classes = record {
  PlmnId = PlmnIdAttributes;
  get_plmn = λ p. p;
  plmn_id_init = no_plmn;
  set_mcc = λ p v. record p { mcc = v };
  set_mnc = λ p v. record p { mnc = v };
  get-plmn_id_init = refl;
  get-set_mcc = λ p v. refl;
  get-set_mnc = λ p v. refl;
  Tai = TaiAttributes;
  get_plmn_id = λ t. t.plmn_id;
  get_tac = λ t. t.tac;
  tai_init = record { plmn_id = no_plmn; tac = "" };
  set_plmn_id = λ t p. record t { plmn_id = p };
  set_tac = λ t v. record t { tac = v };
  get-set_plmn_id = λ t p. refl;
  get_tac-set_plmn_id = λ t p. refl;
  get-set_tac = λ t v. refl;
  get_plmn_id-set_tac = λ t v. refl;
}

abbrev pub nsi_class : NsiClass
nsi_class = record {
  Object = NsiAttributes;
  get = λ n. n;
  init = record {
    nrf_id = "";
    nsi_id_is_set = false;
    nsi_id = "";
    nrf_nf_mgt_uri_is_set = false;
    nrf_nf_mgt_uri = "";
  };
  set_nrf_id = λ n v. record n { nrf_id = v };
  set_nsi_id = λ n v. record n { nsi_id_is_set = true; nsi_id = v };
  set_nrf_nf_mgt_uri = λ n v. record n { nrf_nf_mgt_uri_is_set = true; nrf_nf_mgt_uri = v };
  get-set_nrf_id = λ n v. refl;
  get-set_nsi_id = λ n v. refl;
  get-set_nrf_nf_mgt_uri = λ n v. refl;
}

abbrev pub Auth : Type 0
Auth = AuthAttributes SnssaiAttributes AllowedAttributes NsiAttributes

abbrev pub auth_class : AuthClass SnssaiAttributes AllowedAttributes NsiAttributes
auth_class = record {
  Object = Auth;
  get = λ a. a;
  init = record {
    allowed_nssai_list = none;
    target_amf_set = none;
    candidate_amf_list = none;
    rejected_nssai_in_plmn = none;
    nsi_information = none;
    nrf_amf_set = none;
    nrf_amf_set_nf_mgt_uri = none;
  };
  set_allowed_nssai_list = λ a v. record a { allowed_nssai_list = some v };
  set_target_amf_set = λ a v. record a { target_amf_set = some v };
  set_candidate_amf_list = λ a v. record a { candidate_amf_list = some v };
  set_rejected_nssai_in_plmn = λ a v. record a { rejected_nssai_in_plmn = some v };
  set_nsi_information = λ a v. record a { nsi_information = some v };
  set_nrf_amf_set = λ a v. record a { nrf_amf_set = some v };
  set_nrf_amf_set_nf_mgt_uri = λ a v. record a { nrf_amf_set_nf_mgt_uri = some v };
  get-set_allowed_nssai_list = λ a v. refl;
  get-set_target_amf_set = λ a v. refl;
  get-set_candidate_amf_list = λ a v. refl;
  get-set_rejected_nssai_in_plmn = λ a v. refl;
  get-set_nsi_information = λ a v. refl;
  get-set_nrf_amf_set = λ a v. refl;
  get-set_nrf_amf_set_nf_mgt_uri = λ a v. refl;
}

abbrev pub problem_class : ProblemClass
problem_class = record {
  Object = ProblemAttributes;
  get = λ p. p;
  init = record { title = none; status = none; detail = none; cause = none };
  set_title = λ p v. record p { title = some v };
  set_status = λ p v. record p { status = some v };
  set_detail = λ p v. record p { detail = some v };
  set_cause = λ p v. record p { cause = some v };
  get-init = refl;
  get-set_title = λ p v. refl;
  get-set_status = λ p v. refl;
  get-set_detail = λ p v. refl;
  get-set_cause = λ p v. refl;
}

pub record RegistrationAttributes : Type 0 where
  pub request_mapping : Bool
  pub requested : Option (List SnssaiAttributes)
  pub subscribed : Option (List SnssaiAttributes)

pub record PduAttributes : Type 0 where
  pub roaming_indication : ℕ
  pub snssai : SnssaiAttributes

pub record DataAttributes : Type 0 where
  pub tai : TaiAttributes
  pub snssai_list : List SnssaiAttributes

pub record InfoAttributes : Type 0 where
  pub amf_set_id : Option String
  pub supported : List DataAttributes

abbrev is_given {ℓ} : {A : Type ℓ} → Option A → Bool
is_given none = false
is_given (some a) = true

abbrev given_or {ℓ} : {A : Type ℓ} → A → Option A → A
given_or a none = a
given_or a (some b) = b

abbrev pub concrete : Model
concrete = record {
  snssai = snssai_class;
  ext_snssai = snssai_class;
  sst_max_standardized_value = pos 127;
  nssai = nssai_classes;
  location = location_classes;
  nsi = nsi_class;
  auth = auth_class;
  problem = problem_class;
  status = record {
    ok_code = 200;
    no_content = 204;
    bad_request = 400;
    forbidden = 403;
    service_unavailable = 503;
    is_200 = refl;
    is_204 = refl;
    is_400 = refl;
    is_403 = refl;
    is_503 = refl;
  };
  RegistrationInfo = RegistrationAttributes;
  registration_init = record { request_mapping = false; requested = none; subscribed = none };
  request_mapping_is_set = λ i. i.request_mapping;
  mapping_of_nssai_is_set = λ i. false;
  requested_nssai_is_set = λ i. is_given i.requested;
  get_requested_nssai = λ i. given_or [] i.requested;
  subscribed_nssai_is_set = λ i. is_given i.subscribed;
  get_subscribed_nssai = λ i. given_or [] i.subscribed;
  PduSessionInfo = PduAttributes;
  pdu_session_init = record {
    roaming_indication = 0;
    snssai = record { sst = pos 0; sd = ""; sd_is_set = false };
  };
  roaming_indication = λ i. i.roaming_indication;
  get_snssai = λ i. i.snssai;
  AvailabilityData = DataAttributes;
  availability_data_init = record {
    tai = record { plmn_id = no_plmn; tac = "" };
    snssai_list = [];
  };
  set_tai = λ d t. record d { tai = t };
  get_tai = λ d. d.tai;
  set_supported_snssai_list = λ d l. record d { snssai_list = l };
  get_supported_snssai_list = λ d. d.snssai_list;
  get-set_tai = λ d t. refl;
  get_tai-set_supported_snssai_list = λ d l. refl;
  get-set_supported_snssai_list = λ d l. refl;
  AvailabilityInfo = InfoAttributes;
  amf_set_id_is_set = λ i. is_given i.amf_set_id;
  get_amf_set_id = λ i. given_or "" i.amf_set_id;
  get_supported_nssai_availability_data = λ i. i.supported;
  AuthAvailabilityInfo = Unit;
  auth_availability_init = tt;
}

-- Query parameters by name in a fixed request, and parsers that refuse every text.
abbrev pub concrete_sbi : Sbi concrete
concrete_sbi = record {
  SliceInfoForUeCu = Unit;
  PatchItem = Unit;
  get_query_param = λ qs name. "";
  registration_param = "slice-info-request-for-registration";
  pdu_session_param = "slice-info-request-for-pdu-session";
  parse_plmn_id = λ s. thrown (json_error s);
  parse_tai = λ s. thrown (json_error s);
  parse_registration = λ s. thrown (json_error s);
  parse_pdu_session = λ s. thrown (json_error s);
  parse_ue_cu = λ s. thrown (json_error s);
  parse_availability = λ s. thrown (json_error s);
  parse_patch_items = λ s. ok [];
  dump_auth = λ a. "auth";
  dump_problem = λ p. "problem";
  dump_auth_availability = λ a. "availability";
  dump_api_list = λ l. l.version;
  api_version = "v1";
  ns_selection_base = "/nnssf-nsselection/";
  network_slice_information_path = "/network-slice-information";
  availability_base = "/nnssf-nssaiavailability/";
  nssai_availability_path = "/nssai-availability";
  subscriptions_path = "/nssai-availability/subscriptions";
  subscription_id_path = "/nssai-availability/subscriptions/:subscriptionId";
  split_path = λ path. path ∷ [];
}
