-- ===== src/Http1/Impl/Replies.antt =====
-- The operation of HTTP/1 and the request handlers of HTTP/2 on the same decoded values.
use mathlib.Core.List.{append_assoc}
use oai_cn5g_nssf.Base.{
  ℕ, String, ◌≡◌, refl, ap, ◌≢◌, ◌⊎◌, inl, inr, Bool, true, false, not, Option, none, some, List,
  [], ◌∷◌, ◌++◌, arith, ◌==◌, nat_equality, if◌then◌else◌,
}
use oai_cn5g_nssf.Model.{Model}
use oai_cn5g_nssf.Config.{NssfConfig}
use oai_cn5g_nssf.App
use oai_cn5g_nssf.App.{SelectionAnswer}
use oai_cn5g_nssf.Server.{Sbi}
use oai_cn5g_nssf.Server.Action.{Action, ok}
use oai_cn5g_nssf.Http2.Handlers as Http2
use oai_cn5g_nssf.Http2.Handlers.{is_served, json_type, problem_type, send}
use oai_cn5g_nssf.Http2.Handlers.Replies.{Sends, send-Sends}
use oai_cn5g_nssf.Http1.Pistache.{Event, add_content_type, send_reply, Pistache}
use oai_cn5g_nssf.Http1.Impl.{reply, n_s_selection_get}

-- The action sends one reply with a content type, whatever was sent before.
abbrev pub SendsTyped : Action Event (Unit {0}) → String → ℕ → Option String → Type 0
SendsTyped act content_type code body =
    (es : List Event)
    → act es ≡ (ok tt, es ++ add_content_type content_type ∷ send_reply code body ∷ [])

reply-SendsTyped :
    (content_type : String) (code : ℕ) (body : Option String)
    → SendsTyped (reply content_type code body) content_type code body
reply-SendsTyped content_type code body es =
    ap (λ l. (ok tt, l))
      (append_assoc es (add_content_type content_type ∷ []) (send_reply code body ∷ []))

module _ (m : Model) (sbi : Sbi m) where
  -- Both actions send one reply, with the same code and the same body; that of HTTP/1 is marked as
  -- problem details unless the code is 200, and that of HTTP/2 never.
  abbrev pub Agree : Action Event (Unit {0}) → Action Http2.Event (Unit {0}) → Type 0
  Agree act₁ act₂ =
      (content_type : String) × (code : ℕ) × (body : Option String) × SendsTyped act₁ content_type
        code body
      × Sends act₂ code (some json_type) body
      × (((code ≡ 200) × (content_type ≡ json_type))
          ⊎ ((code ≢ 200) × (content_type ≡ problem_type)))

  answer-Agree :
      (code : ℕ) (problem auth : Option String) (good : Bool)
      → (code == m.status.ok_code) ≡ good
      → Agree
          (if not good then reply problem_type code problem else reply json_type code auth)
          (if good then send code (some json_type) auth else send code (some json_type) problem)
  answer-Agree code problem auth true e = (
    json_type,
    code,
    auth,
    reply-SendsTyped json_type code auth,
    send-Sends code (some json_type) auth,
    inl (ground (arith, m.status.is_200), refl),
  )
  answer-Agree code problem auth false e = (
    problem_type,
    code,
    problem,
    reply-SendsTyped problem_type code problem,
    send-Sends code (some json_type) problem,
    inr ((λ same. ground (arith, m.status.is_200)), refl),
  )

  module _ (p : Pistache m) (cfg : NssfConfig m) (nf_type : p.NfType) (text : String)
      (tai : m.location.Tai) (home : m.location.PlmnId) where
    registration_servers-Agree :
        (info : m.RegistrationInfo)
        → is_served text ≡ true
        → Agree
            (n_s_selection_get m sbi p cfg (some nf_type) (some info) none (some home) (some tai))
            (Http2.get_slice_info_for_registration_handler m sbi cfg text info tai home)
    unfolding n_s_selection_get Http2.get_slice_info_for_registration_handler
    registration_servers-Agree info served =
        let out =
          App.handle_slice_info_for_registration m cfg info tai home 0 m.problem.init m.auth.init in
        rw served (
          answer-Agree out.http_code (some (sbi.dump_problem out.problem_details))
            (some (sbi.dump_auth out.auth_slice_info)) (out.http_code == m.status.ok_code) refl)

    pdu_session_servers-Agree :
        (info : m.PduSessionInfo)
        → is_served text ≡ true
        → Agree
            (n_s_selection_get m sbi p cfg (some nf_type) none (some info) (some home) (some tai))
            (Http2.get_slice_info_for_pdu_session_handler m sbi cfg text info tai home)
    unfolding n_s_selection_get Http2.get_slice_info_for_pdu_session_handler
    pdu_session_servers-Agree info served =
        let out =
          App.handle_slice_info_for_pdu_session m cfg info tai home 0 m.problem.init m.auth.init in
        rw served (
          answer-Agree out.http_code (some (sbi.dump_problem out.problem_details))
            (some (sbi.dump_auth out.auth_slice_info)) (out.http_code == m.status.ok_code) refl)

    -- Given the same decoded values, with a registration request alone, `n_s_selection_get` of HTTP/1 and
    -- the registration handler of HTTP/2 reply with the same code and the same body, if the handler of
    -- HTTP/2 serves the consumer; and so do `n_s_selection_get` and the PDU session handler, with a PDU
    -- session request alone. How each server decodes its request is not compared here.
    pub servers-Agree :
        (info : m.RegistrationInfo) (session : m.PduSessionInfo)
        → is_served text ≡ true
        → Agree
            (n_s_selection_get m sbi p cfg (some nf_type) (some info) none (some home) (some tai))
            (Http2.get_slice_info_for_registration_handler m sbi cfg text info tai home)
          × Agree
              (n_s_selection_get m sbi p cfg
                (some nf_type)
                none
                (some session)
                (some home)
                (some tai))
              (Http2.get_slice_info_for_pdu_session_handler m sbi cfg text session tai home)
    servers-Agree info session served =
        (registration_servers-Agree info served, pdu_session_servers-Agree session served)
