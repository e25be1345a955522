-- ===== src/Selection/Handlers/Configured.antt =====
-- From the configuration file to the answer: a PDU session for a slice that the file describes.
use oai_cn5g_nssf.Base.{
  ℕ, String, ◌≡◌, sym, ap, subst, ◌∙◌, ◌⊎◌, inl, inr, true, List, ◌++◌, Any, arith, eq_iff,
  int_beq_iff,
}
use oai_cn5g_nssf.Model.{Model, PlmnIdAttributes}
use oai_cn5g_nssf.Config.{TaInfo, NssfConfig}
use oai_cn5g_nssf.Config.Yaml.{Yaml}
use oai_cn5g_nssf.Config.Parse.{returned, parse_config}
use oai_cn5g_nssf.Config.Parse.Loop.{All₂, Any-All₂}
use oai_cn5g_nssf.Config.Parse.Describe.{NsiSettings, TaSettings, slice_attributes}
use oai_cn5g_nssf.Config.Parse.Nsi.{HasNsiSettings, HasTaSettings}
use oai_cn5g_nssf.Config.Parse.Whole.{Settings, DescribesAll, parse_config-Adds}
use oai_cn5g_nssf.Selection.Compare.{compare_snssai}
use oai_cn5g_nssf.Selection.Lookup.First.{UnknownTa, SameTai}
use oai_cn5g_nssf.Selection.Handlers.{handle_slice_info_for_pdu_session}
use oai_cn5g_nssf.Selection.Handlers.PduSession.{Roams}
use oai_cn5g_nssf.Selection.Handlers.SessionCodes.{
  IsFor, handle_slice_info_for_pdu_session-TellsNsi,
}

module _ (m : Model) (y : Yaml) where
  open m use {
    location.{PlmnId, Tai, get_plmn_id, get_plmn, get_tac},
    PduSessionInfo,
    get_snssai,
    snssai.{get, Object as Snssai},
  }

  -- The requested slice has the SST and the SD of one of the settings.
  abbrev pub Asks : PduSessionInfo → NsiSettings → Type 0
  Asks info s = get (get_snssai info) ≡ slice_attributes s.slice

  compare-same : (a b : Snssai) → get a ≡ get b → compare_snssai m a b ≡ true
  unfolding compare_snssai
  compare-same a b e =
      rw e (ground (arith, int_beq_iff (get b).sst (get b).sst, eq_iff (get b).sd (get b).sd))

  -- The request names no tracking area, or one of the settings.
  abbrev pub Within : Tai → List TaSettings → Type 0
  Within tai settings =
      (get_tac tai ≡ "")
      ⊎ Any
          (λ s.
            (get_plmn (get_plmn_id tai) ≡ record { mcc = s.mcc; mnc = s.mnc })
            × (get_tac tai ≡ s.tac))
          settings

  pub Within-known :
      (tai : Tai) (settings : List TaSettings) (cfg : NssfConfig m) (old items : List (TaInfo m))
      → cfg.ta_info_list ≡ old ++ items
      → All₂ (HasTaSettings m y) settings items
      → Within tai settings
      → ¬ UnknownTa m cfg tai
  Within-known tai settings cfg old items e all (inl h) u = u.0 h
  Within-known tai settings cfg old items e all (inr h) u = u.1 (
      subst (Any (λ item. SameTai m tai item.tai)) (sym e) (
        Any-All₂ (HasTaSettings m y) _ (λ item. SameTai m tai item.tai)
          (λ s item (p, t) (q, v). (
            ap (λ (a : PlmnIdAttributes). a.mcc) (p ∙ sym q),
            ap (λ (a : PlmnIdAttributes). a.mnc) (p ∙ sym q),
            t ∙ sym v,
          ))
          settings old items h all))

  -- If a configuration file describes a slice instance for the requested slice, and the tracking area
  -- of the request, if it names one, then parsing the file gives a configuration under which a request
  -- for a PDU session of a UE that does not roam is answered with 200, whatever was configured before.
  pub configured_slice_granted :
      (path : String) (s : Settings) (before : NssfConfig m)
      → DescribesAll m y path s
      → (info : PduSessionInfo) (tai : Tai) (home : PlmnId) (code : ℕ) (auth : m.auth.Object)
      → Any (Asks info) s.nsi_settings
      → ¬ Roams m info home
      → Within tai s.ta_settings
      → (cfg : NssfConfig m) × (parse_config m y path before ≡ returned true cfg)
        × ((handle_slice_info_for_pdu_session m cfg info tai home code auth).http_code ≡ 200)
  configured_slice_granted path s before described info tai home code auth asks stays within =
      let (cfg, e, ((items, nsi, all), (tas, ta, known), amf)) =
        parse_config-Adds m y path s before described in
      (
        cfg,
        e,
        (handle_slice_info_for_pdu_session-TellsNsi m cfg info tai home code auth).0.1 (
          stays,
          Within-known tai s.ta_settings cfg before.ta_info_list tas ta known within,
          subst (Any (IsFor m info)) (sym nsi) (
              Any-All₂ (HasNsiSettings m y) (Asks info) (IsFor m info)
                (λ a i h r. compare-same (get_snssai info) i.snssai (h ∙ sym r.0)) s.nsi_settings
                before.nsi_info_list items asks all),
        ),
      )
