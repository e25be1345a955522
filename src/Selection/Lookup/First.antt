-- ===== src/Selection/Lookup/First.antt =====
-- What `validate_nsi` and `validate_ta` find in the configuration.
use oai_cn5g_nssf.Base.{
  ◌≡◌, refl, ap, ◌↔◌, ◌⊎◌, inl, inr, Bool, false, true, ◌||◌, List, [], ◌∷◌, ◌++◌, All, Any,
  Bool-cases, if◌then◌else◌, arith, eq_iff, ◌≢◌, String-cases,
}
use oai_cn5g_nssf.Model.{Model, NsiAttributes}
use oai_cn5g_nssf.Config.{NsiInfo, TaInfo, NssfConfig}
use oai_cn5g_nssf.Selection.Compare.{compare_snssai}
use oai_cn5g_nssf.Selection.Lookup.{copy_nsi, search_nsi, validate_nsi, search_ta, validate_ta}

-- An entry written over what was there: an attribute that the entry lacks stays.
abbrev pub written_over : NsiAttributes → NsiAttributes → NsiAttributes
written_over from to = record {
  nrf_id = from.nrf_id;
  nsi_id_is_set = from.nsi_id_is_set || to.nsi_id_is_set;
  nsi_id = if from.nsi_id_is_set then from.nsi_id else to.nsi_id;
  nrf_nf_mgt_uri_is_set = from.nrf_nf_mgt_uri_is_set || to.nrf_nf_mgt_uri_is_set;
  nrf_nf_mgt_uri = if from.nrf_nf_mgt_uri_is_set then from.nrf_nf_mgt_uri else to.nrf_nf_mgt_uri;
}

module _ (m : Model) where
  open m use {
    snssai.{Object as Snssai},
    nsi.{Object as Nsi, get},
    location.{get_plmn, Tai, get_plmn_id, get_tac},
    PduSessionInfo,
    get_snssai,
  }

  -- No entry is for the S-NSSAI, and nothing is written; or the first that is has been written.
  abbrev pub Finds : Snssai → List (NsiInfo m) → Nsi → Bool × Nsi → Type 0
  Finds s items start (found, out) =
      ((found ≡ false) × (out ≡ start) × All (λ item. compare_snssai m s item.snssai ≡ false) items)
      ⊎ ((before : List (NsiInfo m)) × (item : NsiInfo m) × (after : List (NsiInfo m)) × (items
            ≡ before ++ item ∷ after)
          × All (λ i. compare_snssai m s i.snssai ≡ false) before
          × (compare_snssai m s item.snssai ≡ true)
          × (found ≡ true)
          × (get out ≡ written_over (get item.nsi_info) (get start)))

  get-copy_nsi : (from to : Nsi) → get (copy_nsi m from to) ≡ written_over (get from) (get to)
  unfolding copy_nsi
  get-copy_nsi from to = elim (Bool-cases (get from).nsi_id_is_set) [
    | inl e ↦ elim (Bool-cases (get from).nrf_nf_mgt_uri_is_set) [
      | inl f ↦
          rw (e, f)
            (simp (m.nsi.get-set_nrf_nf_mgt_uri, m.nsi.get-set_nsi_id, m.nsi.get-set_nrf_id))
      | inr f ↦ rw (e, f) (simp (m.nsi.get-set_nsi_id, m.nsi.get-set_nrf_id))
    ]
    | inr e ↦ elim (Bool-cases (get from).nrf_nf_mgt_uri_is_set) [
      | inl f ↦ rw (e, f) (simp (m.nsi.get-set_nrf_nf_mgt_uri, m.nsi.get-set_nrf_id))
      | inr f ↦ rw (e, f) (simp m.nsi.get-set_nrf_id)
    ]
  ]

  Finds-skip :
      (s : Snssai) (item : NsiInfo m) (items : List (NsiInfo m)) (start : Nsi) (out : Bool × Nsi)
      → compare_snssai m s item.snssai ≡ false
      → Finds s items start out
      → Finds s (item ∷ items) start out
  Finds-skip s item items start out e (inl (f, o, all)) = inl (f, o, (e, all))
  Finds-skip s item items start out e (inr (before, i, after, split, all, hit, f, g)) =
      inr (item ∷ before, i, after, ap (◌∷◌ item) split, (e, all), hit, f, g)

  search_step :
      (s : Snssai) (item : NsiInfo m) (items : List (NsiInfo m)) (start : Nsi) (b : Bool)
      → compare_snssai m s item.snssai ≡ b
      → Finds s items start (search_nsi m s items start)
      → Finds s
          (item ∷ items)
          start
          (if b then (true, copy_nsi m item.nsi_info start) else search_nsi m s items start)
  search_step s item items start true e h =
      inr ([], item, items, refl, tt, e, refl, get-copy_nsi item.nsi_info start)
  search_step s item items start false e h =
      Finds-skip s item items start (search_nsi m s items start) e h

  search_nsi-Finds :
      (s : Snssai) (items : List (NsiInfo m)) (start : Nsi)
      → Finds s items start (search_nsi m s items start)
  unfolding search_nsi
  search_nsi-Finds s [] start = inl (refl, refl, tt)
  search_nsi-Finds s (item ∷ items) start =
      search_step s item items start _ refl (search_nsi-Finds s items start)

  -- The first entry of the configuration for the requested S-NSSAI is written to the answer, with the
  -- optional attributes that it has; the request fails, with nothing written, if there is none.
  pub validate_nsi-Finds :
      (cfg : NssfConfig m) (info : PduSessionInfo) (start : Nsi)
      → Finds (get_snssai info) cfg.nsi_info_list start (validate_nsi m cfg info start)
  unfolding validate_nsi
  validate_nsi-Finds cfg info start = search_nsi-Finds (get_snssai info) cfg.nsi_info_list start

  -- Two tracking areas are the same: PLMN and tracking area code are equal.
  abbrev pub SameTai : Tai → Tai → Type 0
  SameTai a b =
      ((get_plmn (get_plmn_id a)).mcc ≡ (get_plmn (get_plmn_id b)).mcc)
      × ((get_plmn (get_plmn_id a)).mnc ≡ (get_plmn (get_plmn_id b)).mnc)
      × (get_tac a ≡ get_tac b)

  search_ta_iff :
      (tai : Tai) (items : List (TaInfo m))
      → (search_ta m tai items ≡ true) ↔ Any (λ item. SameTai tai item.tai) items
  unfolding search_ta
  search_ta_iff tai [] = ground arith
  search_ta_iff tai (item ∷ items) = ground (
    arith,
    eq_iff (get_plmn (get_plmn_id tai)).mcc (get_plmn (get_plmn_id item.tai)).mcc,
    eq_iff (get_plmn (get_plmn_id tai)).mnc (get_plmn (get_plmn_id item.tai)).mnc,
    eq_iff (get_tac tai) (get_tac item.tai),
    search_ta_iff tai items,
  )

  -- A tracking area is authorised exactly if the configuration lists it.
  pub validate_ta_iff :
      (cfg : NssfConfig m) (tai : Tai)
      → (validate_ta m cfg tai ≡ true) ↔ Any (λ item. SameTai tai item.tai) cfg.ta_info_list
  unfolding validate_ta
  validate_ta_iff cfg tai = search_ta_iff tai cfg.ta_info_list

  -- The request names a tracking area that the configuration does not list.
  abbrev pub UnknownTa : NssfConfig m → Tai → Type 0
  UnknownTa cfg tai = (get_tac tai ≢ "") × ¬ Any (λ item. SameTai tai item.tai) cfg.ta_info_list

  pub UnknownTa-cases : (cfg : NssfConfig m) (tai : Tai) → UnknownTa cfg tai ⊎ (¬ UnknownTa cfg tai)
  UnknownTa-cases cfg tai = elim (String-cases (get_tac tai) "") [
    | inl e ↦ inr (λ u. u.0 e)
    | inr e ↦ elim (Bool-cases (validate_ta m cfg tai)) [
      | inl f ↦ inr (λ u. u.1 ((validate_ta_iff cfg tai).0 f))
      | inr f ↦ inl (e, λ h. ground (arith, (validate_ta_iff cfg tai).1 h))
    ]
  ]
