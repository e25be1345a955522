-- ===== src/Http1/Server/Selection/Operation.antt =====
-- What the operation for slice selection replies.
use mathlib.Core.List.{append_assoc}
use oai_cn5g_nssf.Base.{
  ℕ, String, ◌≡◌, refl, ap, Option, none, some, List, [], ◌∷◌, ◌++◌, inl, inr, not, Bool-cases,
  if◌then◌else◌, ◌==◌, nat_equality,
}
use oai_cn5g_nssf.Model.{Model}
use oai_cn5g_nssf.Config.{NssfConfig}
use oai_cn5g_nssf.Selection.Handlers.Codes.{
  handle_slice_info_for_registration-Tells, handle_slice_info_for_registration-TellsFrom,
}
use oai_cn5g_nssf.Selection.Handlers.SessionCodes.{handle_slice_info_for_pdu_session-TellsNsi}
use oai_cn5g_nssf.App
use oai_cn5g_nssf.Server.{Sbi}
use oai_cn5g_nssf.Server.Action.{ok}
use oai_cn5g_nssf.Http1.Pistache.{Event, add_content_type, send_reply, Pistache}
use oai_cn5g_nssf.Http1.Impl.{value_or, selection_answer, n_s_selection_get, reply}
use oai_cn5g_nssf.Http1.Server.Selection.{
  Typed, Answered, no_nf_type, nothing_asked, registration, session, both,
}

module _ (m : Model) (sbi : Sbi m) (p : Pistache m) (cfg : NssfConfig m) (request : p.Request) where
  reply-Typed :
      (code : ℕ) (problem auth : String) (es : List Event)
      → (sent : List Event) × ((if not (code == m.status.ok_code)
              then reply "application/problem+json" code (some problem)
              else reply "application/json" code (some auth))
            es
          ≡ (ok tt, es ++ sent))
        × Typed code sent
  reply-Typed code problem auth es = elim (Bool-cases (code == 200)) [
    | inl good ↦ (
      add_content_type "application/json" ∷ send_reply code (some auth) ∷ [],
      rw (m.status.is_200, good, append_assoc),
      (auth, rw good refl),
    )
    | inr bad ↦ (
      add_content_type "application/problem+json" ∷ send_reply code (some problem) ∷ [],
      rw (m.status.is_200, bad, append_assoc),
      (problem, rw bad refl),
    )
  ]

  pub n_s_selection_get-Answered :
      (nf_type : Option p.NfType) (reg : Option m.RegistrationInfo) (pdu : Option m.PduSessionInfo)
      (home : Option m.location.PlmnId) (tai : Option m.location.Tai) (es : List Event)
      → (sent : List Event) × (n_s_selection_get m sbi p cfg nf_type reg pdu home tai es
          ≡ (ok tt, es ++ sent))
        × Answered m sbi p request cfg nf_type reg pdu
            (value_or m.location.plmn_id_init home)
            (value_or m.location.tai_init tai)
            sent
  unfolding n_s_selection_get selection_answer App.handle_slice_info_for_registration
      App.handle_slice_info_for_pdu_session
  n_s_selection_get-Answered none reg pdu home tai es =
      (_, refl, no_nf_type refl (ap (λ c. send_reply c none ∷ []) m.status.is_400))
  n_s_selection_get-Answered (some t) none none home tai es =
      let (sent, e, typed) =
        reply-Typed 0 (sbi.dump_problem m.problem.init) (sbi.dump_auth m.auth.init) es in
      (sent, e, nothing_asked refl refl typed)
  n_s_selection_get-Answered (some t) (some info) none home tai es =
      let tai' = value_or m.location.tai_init tai in
      let home' = value_or m.location.plmn_id_init home in
      let out =
        App.handle_slice_info_for_registration m cfg info tai' home' 0 m.problem.init m.auth.init in
      let (sent, e, typed) =
        reply-Typed out.http_code (sbi.dump_problem out.problem_details)
          (sbi.dump_auth out.auth_slice_info) es in
      (
        sent,
        e,
        registration info out.http_code refl refl
            (handle_slice_info_for_registration-Tells m cfg info tai' home' m.auth.init) typed,
      )
  n_s_selection_get-Answered (some t) none (some info) home tai es =
      let tai' = value_or m.location.tai_init tai in
      let home' = value_or m.location.plmn_id_init home in
      let out =
        App.handle_slice_info_for_pdu_session m cfg info tai' home' 0 m.problem.init m.auth.init in
      let (sent, e, typed) =
        reply-Typed out.http_code (sbi.dump_problem out.problem_details)
          (sbi.dump_auth out.auth_slice_info) es in
      (
        sent,
        e,
        session info out.http_code refl refl
            (handle_slice_info_for_pdu_session-TellsNsi m cfg info tai' home' 0 m.auth.init) typed,
      )
  n_s_selection_get-Answered (some t) (some info) (some s) home tai es =
      let tai' = value_or m.location.tai_init tai in
      let home' = value_or m.location.plmn_id_init home in
      let out = selection_answer m sbi p cfg (some info) (some s) home' tai' in
      let (sent, e, typed) =
        reply-Typed out.http_code (sbi.dump_problem out.problem_details)
          (sbi.dump_auth out.auth_slice_info) es in
      let session =
        App.handle_slice_info_for_pdu_session m cfg s tai' home' 0 m.problem.init m.auth.init in
      (
        sent,
        e,
        both info s session.http_code out.http_code refl refl
            (handle_slice_info_for_pdu_session-TellsNsi m cfg s tai' home' 0 m.auth.init)
            (handle_slice_info_for_registration-TellsFrom m cfg info tai' home' session.http_code
              session.auth_slice_info)
            typed,
      )
