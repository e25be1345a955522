-- ===== src/Selection/Handlers/Assigned.antt =====
-- From the configuration file to the answer: a registration for slices that the file gives to an AMF.
use oai_cn5g_nssf.Base.{
  String, ◌≡◌, refl, sym, ap, subst, ◌∙◌, inl, inr, true, some, List, [], ◌∷◌, map, filter,
}
use oai_cn5g_nssf.Model.{Model}
use oai_cn5g_nssf.Config.{AmfInfo, NssfConfig}
use oai_cn5g_nssf.Config.Yaml.{Yaml}
use oai_cn5g_nssf.Config.Start.{nssf_config_init}
use oai_cn5g_nssf.Config.Parse.{returned, parse_config}
use oai_cn5g_nssf.Config.Parse.Loop.{All₂}
use oai_cn5g_nssf.Config.Parse.Amf.{AmfSetSettings, HasAmfSetSettings}
use oai_cn5g_nssf.Config.Parse.Whole.{Settings, DescribesAll, parse_config-Adds}
use oai_cn5g_nssf.Selection.AmfSets.Choice.{Chooses}
use oai_cn5g_nssf.Selection.AmfSets.Offer.{
  offering, granted_set, granted_set-none, granted_set-some,
}
use oai_cn5g_nssf.Selection.Plmn.Split.{is_subscribed, shown, Decides}
use oai_cn5g_nssf.Selection.Lookup.First.{UnknownTa}
use oai_cn5g_nssf.Selection.Handlers.{Selected, handle_slice_info_for_registration}
use oai_cn5g_nssf.Selection.Handlers.Registration.{
  Unsupported, IsComplete, Registers, handle_slice_info_for_registration-Registers,
}
use oai_cn5g_nssf.Selection.Handlers.Codes.{SubscribesToSome, Decides-none}
use oai_cn5g_nssf.Selection.Handlers.Configured.{Within, Within-known}

module _ (m : Model) (y : Yaml) where
  open m use {
    snssai.{get, Object as Snssai},
    nssai.{AllowedNssai, get_allowed_snssai, get_allowed_snssai_list},
    location.{PlmnId, Tai},
    RegistrationInfo,
    get_requested_nssai,
    get_subscribed_nssai,
  }

  -- The answer names an AMF set of the settings, with those of its AMFs that cover all requested
  -- S-NSSAIs, and allows the S-NSSAIs that are subscribed to.
  pub record Assigns (info : RegistrationInfo) (set : AmfSetSettings) (auth : m.auth.Object)
      : Type 0 where
    pub target_amf_set : (m.auth.get auth).target_amf_set ≡ some set.target_amf_set
    pub nrf_amf_set : (m.auth.get auth).nrf_amf_set ≡ some set.nrf_amf_set
    pub nrf_amf_set_mgt : (m.auth.get auth).nrf_amf_set_nf_mgt_uri ≡ some set.nrf_amf_set_mgt
    pub candidates :
        (m.auth.get auth).candidate_amf_list ≡ some (offering m (get_requested_nssai info) set.amfs)
    pub allowed : AllowedNssai
    pub is_allowed : (m.auth.get auth).allowed_nssai_list ≡ some (allowed ∷ [])
    pub subscribed :
        map (λ a. get (get_allowed_snssai a)) (get_allowed_snssai_list allowed)
        ≡ map
            (shown m)
            (filter (is_subscribed m (get_subscribed_nssai info)) (get_requested_nssai info))

  Decides-allowed :
      (info : RegistrationInfo) (auth auth' : m.auth.Object)
      → Decides m info auth (true, auth')
      → (allowed : AllowedNssai) × ((m.auth.get auth').allowed_nssai_list ≡ some (allowed ∷ []))
        × (map (λ a. get (get_allowed_snssai a)) (get_allowed_snssai_list allowed)
            ≡ map
                (shown m)
                (filter (is_subscribed m (get_subscribed_nssai info)) (get_requested_nssai info)))
  Decides-allowed info auth auth' (inl (f, _, _)) = absurd (cc)
  Decides-allowed info auth auth' (inr (allowed, _, _, e, _, same)) = (allowed, rw e refl, same)

  Chooses-Assigns :
      (info : RegistrationInfo) (sets : List AmfSetSettings) (items : List (AmfInfo m))
      (set : AmfSetSettings) (auth in_plmn auth' : m.auth.Object)
      → All₂ (HasAmfSetSettings m y) sets items
      → granted_set m (get_requested_nssai info) sets ≡ some set
      → Decides m info auth (true, in_plmn)
      → Chooses m (get_requested_nssai info) items in_plmn (true, auth')
      → Assigns info set auth'
  Chooses-Assigns info sets items set auth in_plmn auth' all granted decides (inl (f, _, _)) =
      absurd (cc)
  Chooses-Assigns info sets items set auth in_plmn auth' all granted decides
        (inr (before, item, after, split, no_one, some_id, _, e)) =
      let (s, is_s, (target, nrf, mgt, _), same) =
        granted_set-some m y (get_requested_nssai info) sets before item after
          (subst (All₂ (HasAmfSetSettings m y) sets) split all) no_one some_id in
      let s-set : s ≡ set = cc in
      let (allowed, is_allowed, subscribed) = Decides-allowed info auth in_plmn decides in
      record {
        target_amf_set =
            rw e (ap some (target ∙ ap (λ (a : AmfSetSettings). a.target_amf_set) s-set));
        nrf_amf_set = rw e (ap some (nrf ∙ ap (λ (a : AmfSetSettings). a.nrf_amf_set) s-set));
        nrf_amf_set_mgt =
            rw e (ap some (mgt ∙ ap (λ (a : AmfSetSettings). a.nrf_amf_set_mgt) s-set));
        candidates = rw e (
            ap some (
              same
              ∙ ap (λ (a : AmfSetSettings). offering m (get_requested_nssai info) a.amfs) s-set));
        allowed = allowed;
        is_allowed = rw e is_allowed;
        subscribed = subscribed;
      }

  Registers-Assigns :
      (cfg : NssfConfig m) (info : RegistrationInfo) (tai : Tai) (home : PlmnId)
      (sets : List AmfSetSettings) (set : AmfSetSettings) (auth : m.auth.Object) (out : Selected m)
      → ¬ Unsupported m info home
      → ¬ UnknownTa m cfg tai
      → IsComplete m info
      → SubscribesToSome m info
      → All₂ (HasAmfSetSettings m y) sets cfg.amf_info_list
      → granted_set m (get_requested_nssai info) sets ≡ some set
      → Registers m cfg info tai home 0 auth out
      → (out.http_code ≡ 200) × Assigns info set out.auth_slice_info
  Registers-Assigns cfg info tai home sets set auth out supported known complete subscribes all
        granted (Registers.unsupported u _) =
      absurd (supported u)
  Registers-Assigns cfg info tai home sets set auth out supported known complete subscribes all
        granted (Registers.unknown_ta _ u _) =
      absurd (known u)
  Registers-Assigns cfg info tai home sets set auth out supported known complete subscribes all
        granted (Registers.incomplete _ _ lacks _) =
      absurd (lacks complete)
  Registers-Assigns cfg info tai home sets set auth out supported known complete subscribes all
        granted (Registers.not_in_plmn _ _ _ d _ _) =
      absurd (Decides-none m d subscribes)
  Registers-Assigns cfg info tai home sets set auth out supported known complete subscribes all
        granted (Registers.no_amf_set in_plmn _ _ _ d (inl (_, _, no_one)) _ _) =
      let e = granted_set-none m y (get_requested_nssai info) sets cfg.amf_info_list all no_one in
      absurd (cc)
  Registers-Assigns cfg info tai home sets set auth out supported known complete subscribes all
        granted (Registers.no_amf_set in_plmn _ _ _ d (inr (_, _, _, _, _, _, f, _)) _ _) =
      absurd (cc)
  Registers-Assigns cfg info tai home sets set auth out supported known complete subscribes all
        granted (Registers.authorised in_plmn _ _ _ d c _ e) =
      (
        e ∙ m.status.is_200,
        Chooses-Assigns info sets cfg.amf_info_list set auth in_plmn out.auth_slice_info all granted
            d c,
      )

  -- If a configuration file describes an AMF set with an AMF that covers all S-NSSAIs that a UE requests,
  -- and the tracking area of the request, if it names one, then under the configuration that is parsed
  -- from it a complete and supported registration request with some S-NSSAI that is subscribed to is
  -- answered with 200, and with the first such AMF set.
  pub configured_set_assigned :
      (path : String) (s : Settings)
      → DescribesAll m y path s
      → (info : RegistrationInfo) (tai : Tai) (home : PlmnId) (auth : m.auth.Object)
        (set : AmfSetSettings)
      → ¬ Unsupported m info home
      → IsComplete m info
      → SubscribesToSome m info
      → Within m y tai s.ta_settings
      → granted_set m (get_requested_nssai info) s.amf_set_settings ≡ some set
      → (cfg : NssfConfig m) × (parse_config m y path (nssf_config_init m) ≡ returned true cfg)
        × (let out = handle_slice_info_for_registration m cfg info tai home 0 auth in
            (out.http_code ≡ 200) × Assigns info set out.auth_slice_info)
  configured_set_assigned path s described info tai home auth set supported complete subscribes
        within granted =
      let (cfg, e, (_, (tas, ta, known), (items, amf, all))) =
        parse_config-Adds m y path s (nssf_config_init m) described in
      (
        cfg,
        e,
        Registers-Assigns cfg info tai home s.amf_set_settings set auth _ supported
            (Within-known m y tai s.ta_settings cfg [] tas ta known within) complete subscribes
            (subst (All₂ (HasAmfSetSettings m y) s.amf_set_settings) (sym amf) all) granted
            (handle_slice_info_for_registration-Registers m cfg info tai home 0 auth),
      )
