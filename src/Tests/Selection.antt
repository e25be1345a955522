-- ===== src/Tests/Selection.antt =====
-- Slice selection, availability and the application over a small configuration.
use oai_cn5g_nssf.Base.{
  pos, String, ◌≡◌, ◌↔◌, ◌≢◌, refl, true, false, some, List, [], ◌∷◌, inl, inr, arith, eq_iff,
}
use oai_cn5g_nssf.Model.{SnssaiAttributes, NsiAttributes, PlmnIdAttributes}
use oai_cn5g_nssf.Config.{NssfConfig}
use oai_cn5g_nssf.Tests.Concrete.{
  concrete, no_plmn, Auth, auth_class, problem_class, TaiAttributes, RegistrationAttributes,
  PduAttributes, DataAttributes, InfoAttributes,
}
use oai_cn5g_nssf.Selection.Compare.{compare_snssai}
use oai_cn5g_nssf.Selection.Compare.Key.{slice_key, compare_snssai-eq-key}
use oai_cn5g_nssf.Selection.AmfSets.{amf_serves, get_valid_amfset}
use oai_cn5g_nssf.Selection.AmfSets.Match.{Serves, amf_serves_iff}
use oai_cn5g_nssf.Selection.AmfSets.Choice.{Chooses, get_valid_amfset-Chooses}
use oai_cn5g_nssf.Selection.Plmn.{validate_rnssai_in_plmn}
use oai_cn5g_nssf.Selection.Plmn.Split.{Decides, validate_rnssai_in_plmn-Decides}
use oai_cn5g_nssf.Selection.Lookup.{validate_ta}
use oai_cn5g_nssf.Selection.Handlers.{
  handle_slice_info_for_registration, handle_slice_info_for_pdu_session,
}
use oai_cn5g_nssf.Selection.Handlers.Registration.{
  Registers, handle_slice_info_for_registration-Registers,
}
use oai_cn5g_nssf.Selection.Handlers.PduSession.{Answers, handle_slice_info_for_pdu_session-Answers}
use oai_cn5g_nssf.Selection.Handlers.Codes.{Tells, handle_slice_info_for_registration-Tells}
use oai_cn5g_nssf.Selection.Handlers.SessionCodes.{
  TellsNsi, handle_slice_info_for_pdu_session-TellsNsi,
}
use oai_cn5g_nssf.Availability.{handle_create_nssai_availability}
use oai_cn5g_nssf.Availability.Create.{
  Creates, Lists, handle_create_nssai_availability-Creates, create_accepts_and_forgets,
}
use oai_cn5g_nssf.App
use oai_cn5g_nssf.App.Problems.{
  IsRefused, Describes, handle_slice_info_for_registration-Describes, pdu_session_undescribed,
}

abbrev pub slice_222 : SnssaiAttributes
slice_222 = record { sst = pos 222; sd = "123"; sd_is_set = true }

abbrev slice_222_other : SnssaiAttributes
slice_222_other = record { sst = pos 222; sd = "124"; sd_is_set = true }

-- Within the standardized range the SD plays no part.
abbrev pub slice_1 : SnssaiAttributes
slice_1 = record { sst = pos 1; sd = "1"; sd_is_set = true }

abbrev pub slice_1_bare : SnssaiAttributes
slice_1_bare = record { sst = pos 1; sd = ""; sd_is_set = false }

abbrev nsi_10 : NsiAttributes
nsi_10 = record {
  nrf_id = "http://oai-cn5g-nrf-10.fr:8080";
  nsi_id_is_set = true;
  nsi_id = "10";
  nrf_nf_mgt_uri_is_set = false;
  nrf_nf_mgt_uri = "";
}

abbrev france : PlmnIdAttributes
france = record { mcc = "208"; mnc = "95" }

abbrev pub area : TaiAttributes
area = record { plmn_id = france; tac = "33456" }

abbrev elsewhere : TaiAttributes
elsewhere = record { plmn_id = france; tac = "1" }

abbrev amf_data : List DataAttributes
amf_data = record { tai = area; snssai_list = slice_222 ∷ slice_1_bare ∷ [] } ∷ []

abbrev pub config : NssfConfig concrete
config = record {
  nsi_info_list =
      record { snssai = slice_222; nsi_info = record nsi_10 { nsi_id = "11" } }
      ∷ record { snssai = slice_1; nsi_info = nsi_10 }
      ∷ [];
  ta_info_list = record { tai = area } ∷ [];
  amf_info_list =
      record {
        target_amf_set = "208-95-128-00";
        nrf_amf_set = "nrf-a";
        nrf_amf_set_mgt = "mgt-a";
        amf_list = [];
      }
      ∷ record {
        target_amf_set = "208-95-128-01";
        nrf_amf_set = "nrf-b";
        nrf_amf_set_mgt = "mgt-b";
        amf_list = ("405e8251", amf_data) ∷ [];
      }
      ∷ [];
}

abbrev pub ask : RegistrationAttributes
ask = record {
  request_mapping = false;
  requested = some (slice_222 ∷ slice_1 ∷ []);
  subscribed = some (slice_222 ∷ slice_1_bare ∷ []);
}

abbrev pub session : PduAttributes
session = record { roaming_indication = 1; snssai = slice_1_bare }

abbrev pub auth_init : Auth
auth_init = auth_class.init

pub granted :
    (handle_slice_info_for_registration concrete config ask area no_plmn 0 auth_init).http_code
    ≡ 200
unfolding handle_slice_info_for_registration validate_rnssai_in_plmn get_valid_amfset validate_ta
    compare_snssai oai_cn5g_nssf.Selection.Plmn.validate_rnssai_in_ta
granted = refl

compare_snssai-eq-key_example :
    (compare_snssai concrete slice_222 slice_222_other ≡ true)
    ↔ (slice_key concrete slice_222 ≡ slice_key concrete slice_222_other)
compare_snssai-eq-key_example =
    compare_snssai-eq-key concrete slice_222 slice_222_other (λ e. cc) (λ e. cc)

amf_serves_iff_example :
    (amf_serves concrete (slice_1 ∷ []) amf_data ≡ true) ↔ Serves concrete (slice_1 ∷ []) amf_data
amf_serves_iff_example = amf_serves_iff concrete (slice_1 ∷ []) amf_data

get_valid_amfset-Chooses_example :
    Chooses concrete
      (slice_222 ∷ [])
      config.amf_info_list
      auth_init
      (get_valid_amfset concrete config (slice_222 ∷ []) auth_init)
get_valid_amfset-Chooses_example =
    get_valid_amfset-Chooses concrete config (slice_222 ∷ []) auth_init

validate_rnssai_in_plmn-Decides_example :
    Decides concrete ask auth_init (validate_rnssai_in_plmn concrete ask auth_init)
validate_rnssai_in_plmn-Decides_example = validate_rnssai_in_plmn-Decides concrete ask auth_init

handle_slice_info_for_registration-Registers_example :
    Registers concrete config ask area no_plmn 0 auth_init
      (handle_slice_info_for_registration concrete config ask area no_plmn 0 auth_init)
handle_slice_info_for_registration-Registers_example =
    handle_slice_info_for_registration-Registers concrete config ask area no_plmn 0 auth_init

handle_slice_info_for_registration-Tells_example :
    Tells concrete config ask elsewhere no_plmn
      (handle_slice_info_for_registration concrete config ask elsewhere no_plmn 0
        auth_init).http_code
handle_slice_info_for_registration-Tells_example =
    handle_slice_info_for_registration-Tells concrete config ask elsewhere no_plmn auth_init

handle_slice_info_for_pdu_session-Answers_example :
    Answers concrete config session area no_plmn auth_init
      (handle_slice_info_for_pdu_session concrete config session area no_plmn 0 auth_init)
handle_slice_info_for_pdu_session-Answers_example =
    handle_slice_info_for_pdu_session-Answers concrete config session area no_plmn 0 auth_init

handle_slice_info_for_pdu_session-TellsNsi_example :
    TellsNsi concrete config session area no_plmn
      (handle_slice_info_for_pdu_session concrete config session area no_plmn 7 auth_init).http_code
handle_slice_info_for_pdu_session-TellsNsi_example =
    handle_slice_info_for_pdu_session-TellsNsi concrete config session area no_plmn 7 auth_init

abbrev pub new_amf : InfoAttributes
new_amf = record { amf_set_id = some "208-95-128-00"; supported = amf_data }

handle_create_nssai_availability-Creates_example :
    let out = handle_create_nssai_availability concrete config "amf-9" new_amf 0 in
    Creates concrete config new_amf 0 out.created out.http_code
handle_create_nssai_availability-Creates_example =
    handle_create_nssai_availability-Creates concrete config "amf-9" new_amf 0

named : ◌≢◌ {A = String} "208-95-128-00" ""
named = ground (arith, eq_iff "208-95-128-00" "")

not_same : ◌≢◌ {A = String} "405e8251" "amf-9"
not_same = ground (arith, eq_iff "405e8251" "amf-9")

unlisted : ¬ Lists concrete config "amf-9"
unlisted (inl h) = h
unlisted (inr (inl (inl e))) = not_same e
unlisted (inr (inl (inr h))) = h
unlisted (inr (inr h)) = h

create_accepts_and_forgets_example :
    let out = handle_create_nssai_availability concrete config "amf-9" new_amf 0 in
    (out.created ≡ true) × (out.http_code ≡ 204) × (¬ Lists concrete out.nssf_cfg "amf-9")
create_accepts_and_forgets_example =
    create_accepts_and_forgets concrete config "amf-9" new_amf 0 refl named (inl refl) unlisted

handle_slice_info_for_registration-Describes_example :
    Describes concrete (IsRefused concrete config ask area no_plmn) problem_class.init (
      App.handle_slice_info_for_registration concrete config ask area no_plmn 0 problem_class.init
        auth_init)
handle_slice_info_for_registration-Describes_example =
    handle_slice_info_for_registration-Describes concrete config area no_plmn 0 problem_class.init
      auth_init ask (λ e. omega arith)

pdu_session_undescribed_example :
    let reply =
      App.handle_slice_info_for_pdu_session concrete config session area no_plmn 0
        problem_class.init auth_init in
    (reply.problem_details ≡ problem_class.init) × (reply.http_code ≢ 403)
pdu_session_undescribed_example =
    pdu_session_undescribed concrete config area no_plmn 0 problem_class.init auth_init session
