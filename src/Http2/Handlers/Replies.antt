-- ===== src/Http2/Handlers/Replies.antt =====
-- What the HTTP/2 handlers reply, and exactly when they grant a request.
use mathlib.Core.List.{append_assoc}
use oai_cn5g_nssf.Base.{
  ℕ, String, ◌≡◌, refl, Bool, false, true, Option, none, some, List, [], ◌∷◌, ◌++◌, arith, ◌==◌,
  nat_equality, if◌then◌else◌,
}
use oai_cn5g_nssf.Model.{Model}
use oai_cn5g_nssf.Config.{NssfConfig}
use oai_cn5g_nssf.Selection.Handlers as Selection
use oai_cn5g_nssf.Selection.Handlers.Codes.{Tells, handle_slice_info_for_registration-Tells}
use oai_cn5g_nssf.Selection.Handlers.SessionCodes.{
  TellsNsi, handle_slice_info_for_pdu_session-TellsNsi,
}
use oai_cn5g_nssf.App
use oai_cn5g_nssf.Server.{Sbi}
use oai_cn5g_nssf.Server.Action.{Action, ok}
use oai_cn5g_nssf.Http2.Handlers.{
  Event, write_head, end_body, json_type, is_served, send, get_slice_info_for_registration_handler,
  get_slice_info_for_pdu_session_handler,
}

-- The action sends one reply, whatever was sent before.
abbrev pub Sends : Action Event (Unit {0}) → ℕ → Option String → Option String → Type 0
Sends act code content_type body =
    (es : List Event) → act es ≡ (ok tt, es ++ write_head code content_type ∷ end_body body ∷ [])

pub send-Sends :
    (code : ℕ) (content_type body : Option String)
    → Sends (send code content_type body) code content_type body
send-Sends code content_type body es = rw append_assoc

module _ {A : Type 0} (a b : A) where
  if_same :
      (c : Bool) (f : A → Action Event (Unit {0}))
      → (if c then f a else f b) ≡ f (if c then a else b)
  if_same true f = refl
  if_same false f = refl

module _ (m : Model) (sbi : Sbi m) (cfg : NssfConfig m) (nf_type : String) where
  open m use {location.{PlmnId, Tai}, RegistrationInfo, PduSessionInfo}

  -- Such a handler sends one reply, and the status code of a reply to a consumer that is served is
  -- `code`; a reply with 200 has the answer for its body.
  abbrev pub RepliesWith : Action Event (Unit {0}) → ℕ → m.auth.Object → Type 0
  RepliesWith act code auth =
      (sent : ℕ) × (body : Option String) × Sends act sent (some json_type) body
      × ((is_served nf_type ≡ true) → sent ≡ code)
      × ((is_served nf_type ≡ false) → (sent ≡ 400) × (body ≡ none))
      × ((sent ≡ 200) → body ≡ some (sbi.dump_auth auth))

  reply_of :
      (code : ℕ) (auth : m.auth.Object) (problem : m.problem.Object) (served : Bool)
      → is_served nf_type ≡ served
      → RepliesWith
          (if served
            then (if code == m.status.ok_code
                then send code (some json_type) (some (sbi.dump_auth auth))
                else send code (some json_type) (some (sbi.dump_problem problem)))
            else send m.status.bad_request (some json_type) none)
          code
          auth
  reply_of code auth problem true e =
      let body =
        if code == m.status.ok_code
        then some (sbi.dump_auth auth)
        else some (sbi.dump_problem problem) in
      (
        code,
        body,
        rw
            (if_same (some (sbi.dump_auth auth)) (some (sbi.dump_problem problem))
              (code == m.status.ok_code) (send code (some json_type)))
            (send-Sends code (some json_type) body),
        (λ h. refl),
        (λ h. absurd (cc)),
        (λ h. ground (arith, m.status.is_200)),
      )
  reply_of code auth problem false e = (
    m.status.bad_request,
    none,
    send-Sends m.status.bad_request (some json_type) none,
    (λ h. absurd (cc)),
    (λ h. (m.status.is_400, refl)),
    (λ h. absurd (omega (arith, m.status.is_400))),
  )

  pub registration-RepliesWith :
      (info : RegistrationInfo) (tai : Tai) (home : PlmnId)
      → let out = Selection.handle_slice_info_for_registration m cfg info tai home 0 m.auth.init in
        RepliesWith
          (get_slice_info_for_registration_handler m sbi cfg nf_type info tai home)
          out.http_code
          out.auth_slice_info
  unfolding get_slice_info_for_registration_handler App.handle_slice_info_for_registration
  registration-RepliesWith info tai home = reply_of _ _ _ (is_served nf_type) refl

  pub pdu_session-RepliesWith :
      (info : PduSessionInfo) (tai : Tai) (home : PlmnId)
      → let out = Selection.handle_slice_info_for_pdu_session m cfg info tai home 0 m.auth.init in
        RepliesWith
          (get_slice_info_for_pdu_session_handler m sbi cfg nf_type info tai home)
          out.http_code
          out.auth_slice_info
  unfolding get_slice_info_for_pdu_session_handler App.handle_slice_info_for_pdu_session
  pdu_session-RepliesWith info tai home = reply_of _ _ _ (is_served nf_type) refl

  -- A registration request is answered by one reply. To a consumer that is no AMF or NSSF it is 400
  -- with no body. To one that is, its status code is 200 exactly if the request can be granted, with the
  -- answer of slice selection for its body; 503 exactly if the procedure is unsupported; 0 exactly if
  -- the tracking area is unknown or S-NSSAIs are lacking; and 403 otherwise.
  pub registration_reply :
      (info : RegistrationInfo) (tai : Tai) (home : PlmnId)
      → (sent : ℕ) × (body : Option String) × Sends
          (get_slice_info_for_registration_handler m sbi cfg nf_type info tai home)
          sent
          (some json_type)
          body
        × ((is_served nf_type ≡ true) → Tells m cfg info tai home sent)
        × ((is_served nf_type ≡ false) → (sent ≡ 400) × (body ≡ none))
        × ((sent ≡ 200)
            → body ≡ (
                let out =
                  Selection.handle_slice_info_for_registration m cfg info tai home 0 m.auth.init in
                some (sbi.dump_auth out.auth_slice_info)))
  registration_reply info tai home =
      let (sent, body, sends, same, bad, full) = registration-RepliesWith info tai home in
      (
        sent,
        body,
        sends,
        (λ h.
            rw (same h) (handle_slice_info_for_registration-Tells m cfg info tai home m.auth.init)),
        bad,
        full,
      )

  -- A PDU session request is answered by one reply. To a consumer that is no AMF or NSSF it is 400 with
  -- no body. To one that is, its status code is 200 exactly if the request can be granted, with the
  -- answer of slice selection for its body; 503 exactly if the UE roams; and 400 otherwise.
  pub pdu_session_reply :
      (info : PduSessionInfo) (tai : Tai) (home : PlmnId)
      → (sent : ℕ) × (body : Option String) × Sends
          (get_slice_info_for_pdu_session_handler m sbi cfg nf_type info tai home)
          sent
          (some json_type)
          body
        × ((is_served nf_type ≡ true) → TellsNsi m cfg info tai home sent)
        × ((is_served nf_type ≡ false) → (sent ≡ 400) × (body ≡ none))
        × ((sent ≡ 200)
            → body ≡ (
                let out =
                  Selection.handle_slice_info_for_pdu_session m cfg info tai home 0 m.auth.init in
                some (sbi.dump_auth out.auth_slice_info)))
  pdu_session_reply info tai home =
      let (sent, body, sends, same, bad, full) = pdu_session-RepliesWith info tai home in
      (
        sent,
        body,
        sends,
        (λ h.
            rw (same h)
              (handle_slice_info_for_pdu_session-TellsNsi m cfg info tai home 0 m.auth.init)),
        bad,
        full,
      )
