-- ===== src/Http1/Server/Selection.antt =====
-- From a request to the reply of the HTTP/1 server: the answers to a request for slice selection.
pub mod Operation
pub mod Handler
pub mod Session
use oai_cn5g_nssf.Base.{
  ℕ, String, ◌≡◌, Option, none, some, List, [], ◌∷◌, if◌then◌else◌, ◌==◌, nat_equality,
}
use oai_cn5g_nssf.Model.{Model}
use oai_cn5g_nssf.Config.{NssfConfig}
use oai_cn5g_nssf.Selection.Handlers.Codes.{Tells, TellsFrom}
use oai_cn5g_nssf.Selection.Handlers.SessionCodes.{TellsNsi}
use oai_cn5g_nssf.Server.{Sbi}
use oai_cn5g_nssf.Server.Action.{Exception, Result, ok, thrown}
use oai_cn5g_nssf.Http1.Pistache.{Event, add_content_type, send_reply, Pistache, what}
use oai_cn5g_nssf.Http1.Impl.{value_or}
use oai_cn5g_nssf.Http1.Api.{always}

-- The value of a query parameter: none if it is not given.
abbrev pub query_result :
    {A : Type 0} → (String → Result (Option A)) → Option String → Result (Option A)
query_result convert none = ok none
query_result convert (some text) = convert text

-- The reply, with the content type that goes with the code.
abbrev pub Typed : ℕ → List Event → Type 0
Typed code sent =
    let content_type = if code == 200 then "application/json" else "application/problem+json" in
    (body : String) × (sent ≡ add_content_type content_type ∷ send_reply code (some body) ∷ [])

module _ (m : Model) (sbi : Sbi m) (p : Pistache m) (request : p.Request) where
  -- The values of the eight query parameters.
  abbrev pub ask : String → Option String
  ask = p.query request

  abbrev pub nf_type_result : Result (Option p.NfType)
  nf_type_result = query_result p.nf_type_value (ask "nf-type")

  abbrev pub nf_id_result : Result (Option String)
  nf_id_result = query_result p.string_value (ask "nf-id")

  abbrev pub registration_result : Result (Option m.RegistrationInfo)
  registration_result = query_result (always sbi.parse_registration) (ask sbi.registration_param)

  abbrev pub pdu_session_result : Result (Option m.PduSessionInfo)
  pdu_session_result =
      query_result (always sbi.parse_pdu_session) (ask "slice-info-request-for-pdu-session")

  abbrev pub ue_cu_result : Result (Option sbi.SliceInfoForUeCu)
  ue_cu_result = query_result (always sbi.parse_ue_cu) (ask "slice-info-request-for-ue-cu")

  abbrev pub home_result : Result (Option m.location.PlmnId)
  home_result = query_result p.plmn_id_value (ask "home-plmn-id")

  abbrev pub tai_result : Result (Option m.location.Tai)
  tai_result = query_result p.tai_value (ask "tai")

  abbrev pub features_result : Result (Option String)
  features_result = query_result p.string_value (ask "supported-features")

  -- The conversion of some query parameter throws; of one of the last three only if the request does not
  -- ask for a UE configuration update.
  pub data Throws (x : Exception) : Type 0 where
    nf_type_throws : nf_type_result ≡ thrown x → Throws x
    nf_id_throws : nf_id_result ≡ thrown x → Throws x
    registration_throws : registration_result ≡ thrown x → Throws x
    pdu_session_throws : pdu_session_result ≡ thrown x → Throws x
    ue_cu_throws : ue_cu_result ≡ thrown x → Throws x
    home_throws : ask "slice-info-request-for-ue-cu" ≡ none → home_result ≡ thrown x → Throws x
    tai_throws : ask "slice-info-request-for-ue-cu" ≡ none → tai_result ≡ thrown x → Throws x
    features_throws :
        ask "slice-info-request-for-ue-cu" ≡ none → features_result ≡ thrown x → Throws x

  -- The values of the five parameters that come first, which can all be converted.
  pub record Converted : Type 0 where
    pub nf_type : Option p.NfType
    pub nf_id : Option String
    pub reg : Option m.RegistrationInfo
    pub pdu : Option m.PduSessionInfo
    pub ue_cu : Option sbi.SliceInfoForUeCu
    pub is_nf_type : nf_type_result ≡ ok nf_type
    pub is_nf_id : nf_id_result ≡ ok nf_id
    pub is_reg : registration_result ≡ ok reg
    pub is_pdu : pdu_session_result ≡ ok pdu
    pub is_ue_cu : ue_cu_result ≡ ok ue_cu

  module _ (cfg : NssfConfig m) where
    -- What the values of the parameters are answered with, if they can all be converted.
    pub data Answered (nf_type : Option p.NfType) (reg : Option m.RegistrationInfo)
        (pdu : Option m.PduSessionInfo) (home : m.location.PlmnId) (tai : m.location.Tai)
        (sent : List Event) : Type 0 where
      no_nf_type :
          nf_type ≡ none → sent ≡ send_reply 400 none ∷ [] → Answered nf_type reg pdu home tai sent
      nothing_asked :
          reg ≡ none → pdu ≡ none → Typed 0 sent → Answered nf_type reg pdu home tai sent
      registration :
          (info : m.RegistrationInfo) (code : ℕ)
          → reg ≡ some info
          → pdu ≡ none
          → Tells m cfg info tai home code
          → Typed code sent
          → Answered nf_type reg pdu home tai sent
      session :
          (info : m.PduSessionInfo) (code : ℕ)
          → reg ≡ none
          → pdu ≡ some info
          → TellsNsi m cfg info tai home code
          → Typed code sent
          → Answered nf_type reg pdu home tai sent
      both :
          (info : m.RegistrationInfo) (session : m.PduSessionInfo) (before code : ℕ)
          → reg ≡ some info
          → pdu ≡ some session
          → TellsNsi m cfg session tai home before
          → TellsFrom m before cfg info tai home code
          → Typed code sent
          → Answered nf_type reg pdu home tai sent

    -- The ways to answer a request for slice selection.
    pub data SelectionReplies (sent : List Event) : Type 0 where
      failed :
          (x : Exception)
          → Throws x
          → sent ≡ send_reply 500 (some (what x)) ∷ []
          → SelectionReplies sent
      ue_cu_refused :
          (text : String)
          → Converted
          → ask "slice-info-request-for-ue-cu" ≡ some text
          → sent ≡ send_reply 404 (some "The requested method does not exist") ∷ []
          → SelectionReplies sent
      answered :
          (c : Converted) (home : Option m.location.PlmnId) (tai : Option m.location.Tai)
          (features : Option String)
          → ask "slice-info-request-for-ue-cu" ≡ none
          → home_result ≡ ok home
          → tai_result ≡ ok tai
          → features_result ≡ ok features
          → Answered c.nf_type c.reg c.pdu
              (value_or m.location.plmn_id_init home)
              (value_or m.location.tai_init tai)
              sent
          → SelectionReplies sent
