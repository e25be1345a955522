-- ===== src/Selection/Handlers/PduSession.antt =====
-- Every way in which `handle_slice_info_for_pdu_session` can end.
use oai_cn5g_nssf.Base.{
  ℕ, ◌≡◌, refl, ◌≢◌, ◌⊎◌, inl, inr, Bool, false, true, List, ◌∷◌, ◌++◌, All, some, String-cases,
  arith, eq_iff, if◌then◌else◌,
}
use oai_cn5g_nssf.Model.{Model}
use oai_cn5g_nssf.Config.{NssfConfig, NsiInfo}
use oai_cn5g_nssf.Selection.Compare.{compare_snssai}
use oai_cn5g_nssf.Selection.Lookup.First.{
  UnknownTa, UnknownTa-cases, validate_ta_iff, Finds, validate_nsi-Finds, written_over,
}
use oai_cn5g_nssf.Selection.Handlers.{
  Selected, select_nsi, handle_slice_info_for_pdu_session, roaming_ind_non_roaming,
}

module _ (m : Model) where
  open m use {
    location.{PlmnId, get_plmn, Tai, get_tac},
    PduSessionInfo,
    roaming_indication,
    get_snssai,
    nsi.{Object as Nsi, get as get_nsi},
  }

  -- The UE is roaming, by the indication or by its home PLMN.
  abbrev pub Roams : PduSessionInfo → PlmnId → Type 0
  Roams info home = (roaming_indication info ≢ roaming_ind_non_roaming) ⊎ ((get_plmn home).mcc ≢ "")

  -- The answer with the information of one configured slice instance.
  abbrev pub Informs : m.auth.Object → NsiInfo m → m.auth.Object → Type 0
  Informs auth item auth' =
      (nsi : Nsi) × (m.auth.get auth' ≡ record (m.auth.get auth) { nsi_information = some nsi })
      × (get_nsi nsi ≡ written_over (get_nsi item.nsi_info) (get_nsi m.nsi.init))

  -- The ways to end; `auth` is the answer on entry. The status code on entry plays no part.
  pub data Answers (cfg : NssfConfig m) (info : PduSessionInfo) (tai : Tai) (home : PlmnId)
      (auth : m.auth.Object) (out : Selected m) : Type 0 where
    roaming :
        Roams info home
        → out ≡ record {
          authorised = false;
          http_code = m.status.service_unavailable;
          auth_slice_info = auth;
        }
        → Answers cfg info tai home auth out
    unknown_ta :
        ¬ Roams info home
        → UnknownTa m cfg tai
        → out
          ≡ record { authorised = false; http_code = m.status.bad_request; auth_slice_info = auth }
        → Answers cfg info tai home auth out
    unknown_slice :
        ¬ Roams info home
        → ¬ UnknownTa m cfg tai
        → All (λ item. compare_snssai m (get_snssai info) item.snssai ≡ false) cfg.nsi_info_list
        → out
          ≡ record { authorised = false; http_code = m.status.bad_request; auth_slice_info = auth }
        → Answers cfg info tai home auth out
    answered :
        (before : List (NsiInfo m)) (item : NsiInfo m) (after : List (NsiInfo m))
        → ¬ Roams info home
        → ¬ UnknownTa m cfg tai
        → cfg.nsi_info_list ≡ before ++ item ∷ after
        → All (λ i. compare_snssai m (get_snssai info) i.snssai ≡ false) before
        → compare_snssai m (get_snssai info) item.snssai ≡ true
        → out.authorised ≡ true
        → out.http_code ≡ m.status.ok_code
        → Informs auth item out.auth_slice_info
        → Answers cfg info tai home auth out

  nat_cases : (a b : ℕ) → (a ≡ b) ⊎ (a ≢ b)
  nat_cases a b = ground arith

  Roams-cases : (info : PduSessionInfo) (home : PlmnId) → Roams info home ⊎ (¬ Roams info home)
  Roams-cases info home = elim (nat_cases (roaming_indication info) roaming_ind_non_roaming) [
    | inl e ↦ elim (String-cases (get_plmn home).mcc "") [
      | inl g ↦ inr (ground arith)
      | inr g ↦ inl (inr g)
    ]
    | inr e ↦ inl (inl e)
  ]

  module _ (cfg : NssfConfig m) (info : PduSessionInfo) (tai : Tai) (home : PlmnId) (code : ℕ)
      (auth : m.auth.Object) where
    when-Roams :
        Roams info home
        → handle_slice_info_for_pdu_session m cfg info tai home code auth ≡ record {
          authorised = false;
          http_code = m.status.service_unavailable;
          auth_slice_info = auth;
        }
    unfolding handle_slice_info_for_pdu_session
    when-Roams h = ground (arith, eq_iff (get_plmn home).mcc "")

    when-UnknownTa :
        ¬ Roams info home
        → UnknownTa m cfg tai
        → handle_slice_info_for_pdu_session m cfg info tai home code auth
          ≡ record { authorised = false; http_code = m.status.bad_request; auth_slice_info = auth }
    unfolding handle_slice_info_for_pdu_session
    when-UnknownTa h u =
        ground
          (arith, eq_iff (get_plmn home).mcc "", eq_iff (get_tac tai) "", validate_ta_iff m cfg tai)

    when_known :
        ¬ Roams info home
        → ¬ UnknownTa m cfg tai
        → handle_slice_info_for_pdu_session m cfg info tai home code auth
          ≡ select_nsi m cfg info auth
    unfolding handle_slice_info_for_pdu_session
    when_known h u =
        ground
          (arith, eq_iff (get_plmn home).mcc "", eq_iff (get_tac tai) "", validate_ta_iff m cfg tai)

    module _ (home_ue : ¬ Roams info home) (known : ¬ UnknownTa m cfg tai) where
      when_found :
          (p : Bool × Nsi)
          → Finds m (get_snssai info) cfg.nsi_info_list m.nsi.init p
          → Answers cfg info tai home auth (
              if p.0
              then record {
                authorised = true;
                http_code = m.status.ok_code;
                auth_slice_info = m.auth.set_nsi_information auth p.1;
              }
              else record {
                authorised = false;
                http_code = m.status.bad_request;
                auth_slice_info = auth;
              })
      when_found p (inl (f, o, all)) = rw f (unknown_slice home_ue known all refl)
      when_found p (inr (before, item, after, split, all, hit, f, g)) = rw f (
          answered before item after home_ue known split all hit refl refl
            (p.1, m.auth.get-set_nsi_information auth p.1, g))

      select_nsi-Answers : Answers cfg info tai home auth (select_nsi m cfg info auth)
      unfolding select_nsi
      select_nsi-Answers = when_found _ (validate_nsi-Finds m cfg info m.nsi.init)

    -- The handler ends in one of four ways: refused with 503 if the UE roams, else with 400 if the
    -- tracking area is unknown, and else with 400 if no slice instance is configured for the slice, each
    -- with the answer as it was; or accepted with 200, and the information of the first slice instance
    -- that is configured for the slice is added to the answer.
    pub handle_slice_info_for_pdu_session-Answers :
        Answers cfg info tai home auth
          (handle_slice_info_for_pdu_session m cfg info tai home code auth)
    handle_slice_info_for_pdu_session-Answers = elim (Roams-cases info home) [
      | inl u ↦ roaming u (when-Roams u)
      | inr home_ue ↦ elim (UnknownTa-cases m cfg tai) [
        | inl t ↦ unknown_ta home_ue t (when-UnknownTa home_ue t)
        | inr known ↦ rw (when_known home_ue known) (select_nsi-Answers home_ue known)
      ]
    ]
