-- ===== src/Selection/Handlers/Bounds.antt =====
-- What an answer to a registration can hold, and how much.
use oai_cn5g_nssf.Base.{
  String, ◌≡◌, refl, sym, ap, ◌∙◌, ◌≤◌, ◌<◌, true, some, List, [], ◌∷◌, filter, map, length, Any,
  Any-split, inl, inr, arith, length-map, length-filter_le, any-length-filter, length_pos,
}
use oai_cn5g_nssf.Model.{Model}
use oai_cn5g_nssf.Config.{NssfConfig, AmfInfo}
use oai_cn5g_nssf.Selection.AmfSets.{amf_serves}
use oai_cn5g_nssf.Selection.AmfSets.Choice.{serving, Chooses}
use oai_cn5g_nssf.Selection.Plmn.Split.{is_subscribed, shown, Decides}
use oai_cn5g_nssf.Selection.Handlers.{Selected, handle_slice_info_for_registration}
use oai_cn5g_nssf.Selection.Handlers.Registration.{
  Registers, handle_slice_info_for_registration-Registers,
}
use oai_cn5g_nssf.Selection.Handlers.Codes.{code_of}

module _ (m : Model) where
  open m use {
    snssai.{get},
    nssai.{AllowedNssai, get_allowed_snssai, get_allowed_snssai_list},
    location.{PlmnId, Tai},
    RegistrationInfo,
    get_requested_nssai,
    get_subscribed_nssai,
  }

  -- An answer allows the S-NSSAIs of the request that are subscribed to, as they are shown, at least one
  -- of them and at most as many as were requested.
  abbrev pub AllowsSome : RegistrationInfo → m.auth.Object → Type 0
  AllowsSome info auth =
      (allowed : AllowedNssai) × ((m.auth.get auth).allowed_nssai_list ≡ some (allowed ∷ []))
      × (map (λ a. get (get_allowed_snssai a)) (get_allowed_snssai_list allowed)
          ≡ map (shown m)
              (filter (is_subscribed m (get_subscribed_nssai info)) (get_requested_nssai info)))
      × (0 < length (get_allowed_snssai_list allowed))
      × (length (get_allowed_snssai_list allowed) ≤ length (get_requested_nssai info))

  -- It names an AMF set of the configuration, with the AMFs of it that serve the request, at least one and
  -- at most all of them.
  abbrev pub NamesSome : NssfConfig m → RegistrationInfo → m.auth.Object → Type 0
  NamesSome cfg info auth =
      (set : AmfInfo m) × (candidates : List String) × Any (λ s. s ≡ set) cfg.amf_info_list
      × ((m.auth.get auth).target_amf_set ≡ some set.target_amf_set)
      × ((m.auth.get auth).candidate_amf_list ≡ some candidates)
      × (candidates ≡ serving m (get_requested_nssai info) set.amf_list)
      × (0 < length candidates)
      × (length candidates ≤ length set.amf_list)

  Decides-AllowsSome :
      (info : RegistrationInfo) (auth auth' : m.auth.Object)
      → Decides m info auth (true, auth')
      → AllowsSome info auth'
  Decides-AllowsSome info auth auth' (inl (f, _, _)) = absurd (cc)
  Decides-AllowsSome info auth auth' (inr (allowed, f, some_hit, e, access, same)) =
      let hit = is_subscribed m (get_subscribed_nssai info) in
      let rs = get_requested_nssai info in
      let lengths : length (get_allowed_snssai_list allowed) ≡ length (filter hit rs) =
        sym (length-map (λ a. get (get_allowed_snssai a)) (get_allowed_snssai_list allowed))
        ∙ ap length same
        ∙ length-map (shown m) (filter hit rs) in
      (
        allowed,
        rw e refl,
        same,
        rw lengths (any-length-filter hit rs some_hit),
        rw lengths (length-filter_le hit rs),
      )

  length-serving :
      (rs : List m.snssai.Object) (amfs : List (String × List m.AvailabilityData))
      → length (serving m rs amfs) ≤ length amfs
  length-serving rs amfs =
      rw
        (length-map (λ (amf : String × List m.AvailabilityData). amf.0)
          (filter (λ amf. amf_serves m rs amf.1) amfs))
        (length-filter_le (λ amf. amf_serves m rs amf.1) amfs)

  Chooses-NamesSome :
      (cfg : NssfConfig m) (info : RegistrationInfo) (auth auth' : m.auth.Object)
      → Chooses m (get_requested_nssai info) cfg.amf_info_list auth (true, auth')
      → NamesSome cfg info auth'
        × ((m.auth.get auth').allowed_nssai_list ≡ (m.auth.get auth).allowed_nssai_list)
  Chooses-NamesSome cfg info auth auth' (inl (f, _, _)) = absurd (cc)
  Chooses-NamesSome cfg info auth auth' (inr (before, set, after, split, no_one, some_id, f, e)) =
      let ids = serving m (get_requested_nssai info) set.amf_list in
      (
        (
          set,
          ids,
          rw split (Any-split (λ s. s ≡ set) before after refl),
          rw e refl,
          rw e refl,
          refl,
          length_pos ids some_id,
          length-serving (get_requested_nssai info) set.amf_list,
        ),
        rw e refl,
      )

  Registers-Bounds :
      (cfg : NssfConfig m) (info : RegistrationInfo) (tai : Tai) (home : PlmnId)
      (auth : m.auth.Object) (out : Selected m)
      → out.http_code ≡ 200
      → Registers m cfg info tai home 0 auth out
      → AllowsSome info out.auth_slice_info × NamesSome cfg info out.auth_slice_info
  Registers-Bounds cfg info tai home auth out e (Registers.unsupported u f) =
      absurd (omega (arith, m.status.is_503, code_of m out _ f))
  Registers-Bounds cfg info tai home auth out e (Registers.unknown_ta s u f) =
      absurd (omega (arith, code_of m out _ f))
  Registers-Bounds cfg info tai home auth out e (Registers.incomplete s k c f) =
      absurd (omega (arith, code_of m out _ f))
  Registers-Bounds cfg info tai home auth out e (Registers.not_in_plmn s k c d _ f) =
      absurd (omega (arith, m.status.is_403))
  Registers-Bounds cfg info tai home auth out e (Registers.no_amf_set _ s k c d g _ f) =
      absurd (omega (arith, m.status.is_403))
  Registers-Bounds cfg info tai home auth out e (Registers.authorised in_plmn s k c d g _ f) =
      let (names, same) = Chooses-NamesSome cfg info in_plmn out.auth_slice_info g in
      let (allowed, is, shows, pos, le) = Decides-AllowsSome info auth in_plmn d in
      ((allowed, same ∙ is, shows, pos, le), names)

  -- A registration that is answered with 200 gets one allowed NSSAI, of the requested S-NSSAIs that are
  -- subscribed to, as they are shown and in their order: at least one, and at most as many as were
  -- requested. It gets an AMF set of the configuration, and as candidates the AMFs of this set that serve
  -- the requested S-NSSAIs: at least one, and at most as many as the set has.
  pub registration_bounds :
      (cfg : NssfConfig m) (info : RegistrationInfo) (tai : Tai) (home : PlmnId)
      (auth : m.auth.Object)
      → let out = handle_slice_info_for_registration m cfg info tai home 0 auth in
        out.http_code ≡ 200
        → AllowsSome info out.auth_slice_info × NamesSome cfg info out.auth_slice_info
  registration_bounds cfg info tai home auth e =
      Registers-Bounds cfg info tai home auth _ e
        (handle_slice_info_for_registration-Registers m cfg info tai home 0 auth)
