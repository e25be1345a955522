-- ===== src/Http1/Pistache.antt =====
-- The library Pistache and the helpers of common-src, as far as the HTTP/1 server uses them.
use oai_cn5g_nssf.Base.{ℕ, String, Option}
use oai_cn5g_nssf.Model.{Model}
use oai_cn5g_nssf.Server.Action.{Exception, json_error, http_error, std_error, Result}

-- What a handler does to its response: `headers().add<ContentType>` and `send`, with a code and a body
-- or none.
pub data Event : Type 0 where
  add_content_type : String → Event
  send_reply : ℕ → Option String → Event

-- The codes of `Pistache::Http::Code`, which are those of RFC 9110.
abbrev pub code_bad_request : ℕ
code_bad_request = 400

abbrev pub code_not_found : ℕ
code_not_found = 404

abbrev pub code_internal_server_error : ℕ
code_internal_server_error = 500

abbrev pub code_service_unavailable : ℕ
code_service_unavailable = 503

-- Requests, and the conversions of their parts; a conversion may throw, and `fromStringValue` may also
-- return false.
pub record Pistache (m : Model) : Type 1 where
  pub Request : Type 0
  -- `request.query().get`, `request.param(…).as<std::string>()`, `request.body()` and
  -- `request.headers().tryGetRaw`
  pub query : Request → String → Option String
  pub param : Request → String → Result String
  pub body : Request → String
  pub Header : Type 0
  pub header : Request → String → Option Header
  -- `fromStringValue`
  pub NfType : Type 0
  pub nf_type_value : String → Result (Option NfType)
  pub string_value : String → Result (Option String)
  pub plmn_id_value : String → Result (Option m.location.PlmnId)
  pub tai_value : String → Result (Option m.location.Tai)
  -- `NssaiAvailabilityInfo::validate`
  pub validate_availability : m.AvailabilityInfo → Result (Unit {0})
  -- `NssfEventSubscriptionCreateData` with its `from_json` and `validate`
  pub Subscription : Type 0
  pub parse_subscription : String → Result Subscription
  pub validate_subscription : Subscription → Result (Unit {0})

-- `std::exception::what`
abbrev pub what : Exception → String
what (json_error s) = s
what (http_error code s) = s
what (std_error s) = s
