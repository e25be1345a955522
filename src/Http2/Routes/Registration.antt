-- ===== src/Http2/Routes/Registration.antt =====
-- A request for a registration to the callback for slice selection.
use oai_cn5g_nssf.Base.{
  String, ◌≡◌, refl, ◌∙◌, Bool-cases, inl, inr, true, false, some, List, ◌∷◌, ◌++◌, [],
  if◌then◌else◌, nat_equality, string_equality,
}
use oai_cn5g_nssf.Model.{Model}
use oai_cn5g_nssf.Config.{NssfConfig}
use oai_cn5g_nssf.Selection.Handlers as Selection
use oai_cn5g_nssf.Selection.Handlers.{is_empty}
use oai_cn5g_nssf.Server.{Sbi, nf_type_param, home_plmn_id_param, tai_param}
use oai_cn5g_nssf.Server.Action.{Result, ok, pure}
use oai_cn5g_nssf.Http2.Handlers.{Event, write_head, end_body, json_type, is_served}
use oai_cn5g_nssf.Http2.Handlers.Replies.{registration-RepliesWith}
use oai_cn5g_nssf.Http2.Routes.{parse_or, on_slice_information}

module _ (m : Model) (sbi : Sbi m) where
  -- The value of an optional query parameter: the default object if it is empty.
  abbrev pub value_of : {A : Type 0} → A → (String → Result A) → String → Result A
  value_of a parse text = if is_empty text then ok a else parse text

  -- The query is for a registration, by an AMF or an NSSF, and can be parsed.
  pub record AsksRegistration (qs : String) (info : m.RegistrationInfo) (home : m.location.PlmnId)
      (tai : m.location.Tai) : Type 0 where
    pub served : is_served (sbi.get_query_param qs nf_type_param) ≡ true
    pub asks : is_empty (sbi.get_query_param qs sbi.registration_param) ≡ false
    pub is_info : sbi.parse_registration (sbi.get_query_param qs sbi.registration_param) ≡ ok info
    pub is_home :
        value_of m.location.plmn_id_init sbi.parse_plmn_id
          (sbi.get_query_param qs home_plmn_id_param)
        ≡ ok home
    pub is_tai :
        value_of m.location.tai_init sbi.parse_tai (sbi.get_query_param qs tai_param) ≡ ok tai

  parse_or-value_of :
      {A : Type 0} (a b : A) (parse : String → Result A) (text : String)
      → value_of a parse text ≡ ok b
      → parse_or m sbi a parse text ≡ pure b
  parse_or-value_of a b parse text e = elim (Bool-cases (is_empty text)) [
    | inl h ↦ let same : ok a ≡ ok b = rw h at e in rw h (λ i es. (same i, es))
    | inr h ↦ let same : parse text ≡ ok b = rw h at e in rw h (λ i es. (same i, es))
  ]

  -- If slice selection grants it, the reply is 200 with the answer.
  pub granted_registration :
      (cfg : NssfConfig m) (qs : String) (info : m.RegistrationInfo) (home : m.location.PlmnId)
      (tai : m.location.Tai)
      → AsksRegistration qs info home tai
      → let out = Selection.handle_slice_info_for_registration m cfg info tai home 0 m.auth.init in
        out.http_code ≡ 200
        → (es : List Event)
        → on_slice_information m sbi cfg "GET" qs es ≡ (
          ok tt,
          es
              ++ write_head 200 (some json_type)
                ∷ end_body (some (sbi.dump_auth out.auth_slice_info))
                ∷ [],
        )
  unfolding on_slice_information
  granted_registration cfg qs info home tai asks granted es =
      let nf_type = sbi.get_query_param qs nf_type_param in
      let (sent, body, sends, same, _, full) =
        registration-RepliesWith m sbi cfg nf_type info tai home in
      let is_200 : sent ≡ 200 = same asks.served ∙ granted in
      rw
        (
          parse_or-value_of m.location.plmn_id_init home sbi.parse_plmn_id _ asks.is_home,
          parse_or-value_of m.location.tai_init tai sbi.parse_tai _ asks.is_tai,
          asks.asks,
          asks.is_info,
          sends es,
        )
        (rw (is_200, full is_200) refl)
