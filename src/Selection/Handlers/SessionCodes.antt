-- ===== src/Selection/Handlers/SessionCodes.antt =====
-- The status codes with which a request for a PDU session ends, and exactly when.
use oai_cn5g_nssf.Base.{
  ℕ, ◌≡◌, ◌∙◌, ◌↔◌, ◌⊎◌, inl, inr, false, true, Any, All-not-Any, Any-split, iff_yes, iff_no, arith,
}
use oai_cn5g_nssf.Model.{Model}
use oai_cn5g_nssf.Config.{NssfConfig, NsiInfo}
use oai_cn5g_nssf.Selection.Compare.{compare_snssai}
use oai_cn5g_nssf.Selection.Lookup.First.{UnknownTa}
use oai_cn5g_nssf.Selection.Handlers.{Selected, handle_slice_info_for_pdu_session}
use oai_cn5g_nssf.Selection.Handlers.PduSession.{
  Roams, Answers, handle_slice_info_for_pdu_session-Answers,
}
use oai_cn5g_nssf.Selection.Handlers.Codes.{code_of}

module _ (m : Model) where
  open m use {location.{PlmnId, Tai}, PduSessionInfo, get_snssai}

  -- The PDU session request can be granted.
  abbrev pub HasNsi : NssfConfig m → PduSessionInfo → Tai → PlmnId → Type 0
  HasNsi cfg info tai home =
      (¬ Roams m info home)
      × (¬ UnknownTa m cfg tai)
      × Any (λ item. compare_snssai m (get_snssai info) item.snssai ≡ true) cfg.nsi_info_list

  abbrev pub IsFor : PduSessionInfo → NsiInfo m → Type 0
  IsFor info item = compare_snssai m (get_snssai info) item.snssai ≡ true

  -- What a status code of the PDU session handler tells of the request.
  abbrev pub TellsNsi : NssfConfig m → PduSessionInfo → Tai → PlmnId → ℕ → Type 0
  TellsNsi cfg info tai home code =
      ((code ≡ 200) ↔ HasNsi cfg info tai home)
      × ((code ≡ 503) ↔ Roams m info home)
      × ((code ≡ 200) ⊎ (code ≡ 400) ⊎ (code ≡ 503))

  Answers-TellsNsi :
      (cfg : NssfConfig m) (info : PduSessionInfo) (tai : Tai) (home : PlmnId)
      (auth : m.auth.Object) (out : Selected m)
      → Answers m cfg info tai home auth out
      → TellsNsi cfg info tai home out.http_code
  Answers-TellsNsi cfg info tai home auth out (Answers.roaming r e) =
      let c = code_of m out _ e ∙ m.status.is_503 in
      (iff_no (λ f. omega arith) (λ g. g.0 r), iff_yes c r, inr (inr c))
  Answers-TellsNsi cfg info tai home auth out (Answers.unknown_ta home_ue u e) =
      let c = code_of m out _ e ∙ m.status.is_400 in
      (iff_no (λ f. omega arith) (λ g. g.1 u), iff_no (λ f. omega arith) home_ue, inr (inl c))
  Answers-TellsNsi cfg info tai home auth out (Answers.unknown_slice home_ue known all e) =
      let c = code_of m out _ e ∙ m.status.is_400 in
      let lacks =
        All-not-Any (IsFor info)
          (λ (item : NsiInfo m). compare_snssai m (get_snssai info) item.snssai ≡ false)
          (λ item f g. cc) cfg.nsi_info_list all in
      (iff_no (λ f. omega arith) (λ g. lacks g.2), iff_no (λ f. omega arith) home_ue, inr (inl c))
  Answers-TellsNsi cfg info tai home auth out
        (Answers.answered before item after home_ue known split _ hit _ e _) =
      let c = e ∙ m.status.is_200 in
      (
        iff_yes c (home_ue, known, rw split (Any-split (IsFor info) before after hit)),
        iff_no (λ f. omega arith) home_ue,
        inl c,
      )

  -- The PDU session handler ends with 200 exactly if the request can be granted, with 503 exactly if
  -- the UE roams, and with 400 otherwise, whatever the status code on entry.
  pub handle_slice_info_for_pdu_session-TellsNsi :
      (cfg : NssfConfig m) (info : PduSessionInfo) (tai : Tai) (home : PlmnId) (code : ℕ)
      (auth : m.auth.Object)
      → TellsNsi cfg info tai home
          (handle_slice_info_for_pdu_session m cfg info tai home code auth).http_code
  handle_slice_info_for_pdu_session-TellsNsi cfg info tai home code auth =
      Answers-TellsNsi cfg info tai home auth _
        (handle_slice_info_for_pdu_session-Answers m cfg info tai home code auth)
