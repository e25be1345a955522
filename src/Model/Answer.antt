-- ===== src/Model/Answer.antt =====
-- What a request is answered with: `NsiInformation`, `AuthorizedNetworkSliceInfo` and
-- `ProblemDetails` of the generated 3GPP model, and the status codes of `3gpp_29.500.h`.
use oai_cn5g_nssf.Base.{ℕ, String, ◌≡◌, Bool, true, Option, none, some, List}

-- What the getters return; an optional attribute comes with its `...IsSet`.
pub record NsiAttributes : Type 0 where
  pub nrf_id : String
  pub nsi_id_is_set : Bool
  pub nsi_id : String
  pub nrf_nf_mgt_uri_is_set : Bool
  pub nrf_nf_mgt_uri : String

pub record NsiClass : Type 1 where
  pub Object : Type 0
  pub get : Object → NsiAttributes
  pub init : Object
  pub set_nrf_id : Object → String → Object
  pub set_nsi_id : Object → String → Object
  pub set_nrf_nf_mgt_uri : Object → String → Object
  pub get-set_nrf_id :
      (n : Object) (v : String) → get (set_nrf_id n v) ≡ record (get n) { nrf_id = v }
  pub get-set_nsi_id :
      (n : Object) (v : String)
      → get (set_nsi_id n v) ≡ record (get n) { nsi_id_is_set = true; nsi_id = v }
  pub get-set_nrf_nf_mgt_uri :
      (n : Object) (v : String)
      → get (set_nrf_nf_mgt_uri n v)
        ≡ record (get n) { nrf_nf_mgt_uri_is_set = true; nrf_nf_mgt_uri = v }

-- The attributes that the program sets; `none` before the first call of the setter.
pub record AuthAttributes (Snssai AllowedNssai Nsi : Type 0) : Type 0 where
  pub allowed_nssai_list : Option (List AllowedNssai)
  pub target_amf_set : Option String
  pub candidate_amf_list : Option (List String)
  pub rejected_nssai_in_plmn : Option (List Snssai)
  pub nsi_information : Option Nsi
  pub nrf_amf_set : Option String
  pub nrf_amf_set_nf_mgt_uri : Option String

pub record AuthClass (Snssai AllowedNssai Nsi : Type 0) : Type 1 where
  pub Object : Type 0
  pub get : Object → AuthAttributes Snssai AllowedNssai Nsi
  pub init : Object
  pub set_allowed_nssai_list : Object → List AllowedNssai → Object
  pub set_target_amf_set : Object → String → Object
  pub set_candidate_amf_list : Object → List String → Object
  pub set_rejected_nssai_in_plmn : Object → List Snssai → Object
  pub set_nsi_information : Object → Nsi → Object
  pub set_nrf_amf_set : Object → String → Object
  pub set_nrf_amf_set_nf_mgt_uri : Object → String → Object
  pub get-set_allowed_nssai_list :
      (a : Object) (v : List AllowedNssai)
      → get (set_allowed_nssai_list a v) ≡ record (get a) { allowed_nssai_list = some v }
  pub get-set_target_amf_set :
      (a : Object) (v : String)
      → get (set_target_amf_set a v) ≡ record (get a) { target_amf_set = some v }
  pub get-set_candidate_amf_list :
      (a : Object) (v : List String)
      → get (set_candidate_amf_list a v) ≡ record (get a) { candidate_amf_list = some v }
  pub get-set_rejected_nssai_in_plmn :
      (a : Object) (v : List Snssai)
      → get (set_rejected_nssai_in_plmn a v) ≡ record (get a) { rejected_nssai_in_plmn = some v }
  pub get-set_nsi_information :
      (a : Object) (v : Nsi)
      → get (set_nsi_information a v) ≡ record (get a) { nsi_information = some v }
  pub get-set_nrf_amf_set :
      (a : Object) (v : String)
      → get (set_nrf_amf_set a v) ≡ record (get a) { nrf_amf_set = some v }
  pub get-set_nrf_amf_set_nf_mgt_uri :
      (a : Object) (v : String)
      → get (set_nrf_amf_set_nf_mgt_uri a v) ≡ record (get a) { nrf_amf_set_nf_mgt_uri = some v }

pub record ProblemAttributes : Type 0 where
  pub title : Option String
  pub status : Option ℕ
  pub detail : Option String
  pub cause : Option String

pub record ProblemClass : Type 1 where
  pub Object : Type 0
  pub get : Object → ProblemAttributes
  pub init : Object
  pub set_title : Object → String → Object
  pub set_status : Object → ℕ → Object
  pub set_detail : Object → String → Object
  pub set_cause : Object → String → Object
  pub get-init : get init ≡ record { title = none; status = none; detail = none; cause = none }
  pub get-set_title :
      (p : Object) (v : String) → get (set_title p v) ≡ record (get p) { title = some v }
  pub get-set_status :
      (p : Object) (v : ℕ) → get (set_status p v) ≡ record (get p) { status = some v }
  pub get-set_detail :
      (p : Object) (v : String) → get (set_detail p v) ≡ record (get p) { detail = some v }
  pub get-set_cause :
      (p : Object) (v : String) → get (set_cause p v) ≡ record (get p) { cause = some v }

-- `oai::common::sbi::http_status_code`; the codes are those of RFC 9110.
pub record StatusCodes : Type 0 where
  pub ok_code : ℕ
  pub no_content : ℕ
  pub bad_request : ℕ
  pub forbidden : ℕ
  pub service_unavailable : ℕ
  pub is_200 : ok_code ≡ 200
  pub is_204 : no_content ≡ 204
  pub is_400 : bad_request ≡ 400
  pub is_403 : forbidden ≡ 403
  pub is_503 : service_unavailable ≡ 503
