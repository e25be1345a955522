-- ===== src/App/Problems.antt =====
-- Which requests are answered with problem details.
use oai_cn5g_nssf.Base.{ℕ, String, ◌≡◌, sym, ap, ◌∙◌, ◌≢◌, ◌⊎◌, inl, inr, false, some, arith}
use oai_cn5g_nssf.Model.{Model, ProblemAttributes}
use oai_cn5g_nssf.Config.{NssfConfig}
use oai_cn5g_nssf.Selection.Handlers as Selection
use oai_cn5g_nssf.Selection.Handlers.{Selected}
use oai_cn5g_nssf.Selection.Handlers.PduSession.{Answers, handle_slice_info_for_pdu_session-Answers}
use oai_cn5g_nssf.Selection.Lookup.First.{UnknownTa}
use oai_cn5g_nssf.Selection.Handlers.Registration.{
  Unsupported, IsComplete, Registers, handle_slice_info_for_registration-Registers,
}
use oai_cn5g_nssf.Selection.Handlers.Codes.{
  code_of, SubscribesToSome, HasServingAmf, Decides-any, Decides-none, Chooses-Any, Chooses-none,
}
use oai_cn5g_nssf.App.{
  SelectionAnswer, refusal, answer, handle_slice_info_for_registration,
  handle_slice_info_for_pdu_session,
}

module _ (m : Model) where
  open m use {location.{PlmnId, Tai}, RegistrationInfo, PduSessionInfo, AvailabilityInfo}

  -- What the problem details of a refusal say.
  abbrev pub refused_because : String → ProblemAttributes
  refused_because detail = record {
    title = some "UNSUPPORTED_RESOURCE";
    status = some m.status.forbidden;
    detail = some detail;
    cause = some "SNSSAI_NOT_SUPPORTED";
  }

  get-refusal :
      (detail : String) (p : m.problem.Object)
      → m.problem.get (refusal m detail p) ≡ refused_because detail
  unfolding refusal
  get-refusal detail p = simp (
    m.problem.get-set_cause, m.problem.get-set_detail, m.problem.get-set_status,
    m.problem.get-set_title,
  )

  abbrev pub plmn_detail : String
  plmn_detail = "S-NSSAI in Requested NSSAI is not supported in PLMN"

  -- The request is complete and its tracking area is known, but no requested S-NSSAI is subscribed to, or
  -- no AMF set can serve the requested ones.
  abbrev pub IsRefused : NssfConfig m → RegistrationInfo → Tai → PlmnId → Type 0
  IsRefused cfg info tai home =
      (¬ Unsupported m info home)
      × (¬ UnknownTa m cfg tai)
      × IsComplete m info
      × (¬ (SubscribesToSome m info × HasServingAmf m cfg info))

  -- A refusal has the status 403 and is described; nothing else does, and it keeps the problem details.
  abbrev pub Describes : Type 0 → m.problem.Object → SelectionAnswer m → Type 0
  Describes Refused problem reply =
      (Refused
        × (reply.http_code ≡ m.status.forbidden)
        × (m.problem.get reply.problem_details ≡ refused_because plmn_detail))
      ⊎ ((¬ Refused) × (reply.http_code ≢ m.status.forbidden) × (reply.problem_details ≡ problem))

  answer_refused :
      (out : Selected m) (problem : m.problem.Object)
      → out.authorised ≡ false
      → out.http_code ≡ m.status.forbidden
      → m.problem.get (answer m out problem).problem_details ≡ refused_because plmn_detail
  unfolding answer
  answer_refused out problem a e = ground (arith, get-refusal plmn_detail problem)

  answer_unrefused :
      (out : Selected m) (problem : m.problem.Object)
      → out.http_code ≢ m.status.forbidden
      → (answer m out problem).problem_details ≡ problem
  unfolding answer
  answer_unrefused out problem h = ground arith

  module _ (cfg : NssfConfig m) (tai : Tai) (home : PlmnId) (code : ℕ) (problem : m.problem.Object)
      (auth : m.auth.Object) where
    refused-Describes :
        {Refused : Type 0} (out : Selected m)
        → Refused
        → out.authorised ≡ false
        → out.http_code ≡ m.status.forbidden
        → Describes Refused problem (answer m out problem)
    unfolding answer
    refused-Describes out r a e = inl (r, e, answer_refused out problem a e)

    unrefused-Describes :
        {Refused : Type 0} (out : Selected m)
        → ¬ Refused
        → out.http_code ≢ m.status.forbidden
        → Describes Refused problem (answer m out problem)
    unfolding answer
    unrefused-Describes out r e = inr (r, e, answer_unrefused out problem e)

    Registers-Describes :
        (info : RegistrationInfo) (out : Selected m)
        → code ≢ m.status.forbidden
        → Registers m cfg info tai home code auth out
        → Describes (IsRefused cfg info tai home) problem (answer m out problem)
    Registers-Describes info out fresh (Registers.unsupported u e) =
        unrefused-Describes out (λ r. r.0 u)
          (λ f. omega (arith, m.status.is_503, m.status.is_403, code_of m out _ e))
    Registers-Describes info out fresh (Registers.unknown_ta _ u e) =
        unrefused-Describes out (λ r. r.1 u) (λ f. fresh (sym (code_of m out _ e) ∙ f))
    Registers-Describes info out fresh (Registers.incomplete _ _ c e) =
        unrefused-Describes out (λ r. c r.2) (λ f. fresh (sym (code_of m out _ e) ∙ f))
    Registers-Describes info out fresh (Registers.not_in_plmn s k c d a e) =
        refused-Describes out (s, k, c, λ h. Decides-none m d h.0) a e
    Registers-Describes info out fresh (Registers.no_amf_set _ s k c _ g a e) =
        refused-Describes out (s, k, c, λ h. Chooses-none m cfg info g h.1) a e
    Registers-Describes info out fresh (Registers.authorised _ s k c d g a e) =
        unrefused-Describes out (λ r. r.3 (Decides-any m d, Chooses-Any m cfg info g))
          (λ f. omega (arith, m.status.is_200, m.status.is_403))

    -- From a status code other than 403, a complete registration request in a known tracking area, for
    -- no slice that is subscribed to or that an AMF set can serve, gets 403 and the problem details that
    -- say so; any other request does not get 403 and keeps the problem details.
    pub handle_slice_info_for_registration-Describes :
        (info : RegistrationInfo)
        → code ≢ m.status.forbidden
        → Describes
            (IsRefused cfg info tai home)
            problem
            (handle_slice_info_for_registration m cfg info tai home code problem auth)
    unfolding handle_slice_info_for_registration
    handle_slice_info_for_registration-Describes info fresh =
        Registers-Describes info _ fresh
          (handle_slice_info_for_registration-Registers m cfg info tai home code auth)

    Answers-unrefused :
        {info : PduSessionInfo} {out : Selected m}
        → Answers m cfg info tai home auth out
        → out.http_code ≢ m.status.forbidden
    Answers-unrefused (Answers.roaming _ e) f =
        ground (arith, ap (λ (o : Selected m). o.http_code) e)
    Answers-unrefused (Answers.unknown_ta _ _ e) f =
        ground (arith, ap (λ (o : Selected m). o.http_code) e)
    Answers-unrefused (Answers.unknown_slice _ _ _ e) f =
        ground (arith, ap (λ (o : Selected m). o.http_code) e)
    Answers-unrefused (Answers.answered _ _ _ _ _ _ _ _ _ e _) f = ground arith

    -- A PDU session request never gets problem details: its selection never refuses with 403, so the
    -- branch that describes a refusal is dead.
    pub pdu_session_undescribed :
        (info : PduSessionInfo)
        → let reply = handle_slice_info_for_pdu_session m cfg info tai home code problem auth in
          (reply.problem_details ≡ problem) × (reply.http_code ≢ m.status.forbidden)
    unfolding handle_slice_info_for_pdu_session answer
    pdu_session_undescribed info =
        let out = Selection.handle_slice_info_for_pdu_session m cfg info tai home code auth in
        let unrefused =
          Answers-unrefused
            (handle_slice_info_for_pdu_session-Answers m cfg info tai home code auth) in
        (answer_unrefused out problem unrefused, unrefused)
