-- ===== src/Selection/AmfSets/Choice.antt =====
-- Which AMF set `get_valid_amfset` answers with.
use oai_cn5g_nssf.Base.{
  String, ◌≡◌, refl, ◌∙◌, ap, ◌⊎◌, inl, inr, ◌≢◌, Bool, false, true, List, [], ◌∷◌, ◌++◌, map,
  filter, All, some, Bool-cases, not, is_nil, if◌then◌else◌,
}
use mathlib.Core.List.{append_assoc, append-nil}
use oai_cn5g_nssf.Model.{Model}
use oai_cn5g_nssf.Config.{AmfInfo, NssfConfig}
use oai_cn5g_nssf.Selection.AmfSets.{
  amf_serves, push_candidates, set_candidates, search_amf_sets, get_valid_amfset,
}

module _ (m : Model) where
  open m use {snssai.{Object as Snssai}, AvailabilityData}

  -- The AMFs of a list that can serve the request, in the order of the configuration.
  abbrev pub serving : List Snssai → List (String × List AvailabilityData) → List String
  serving rs amfs = map (λ amf. amf.0) (filter (λ amf. amf_serves m rs amf.1) amfs)

  -- The request finds no AMF set, or the first set with an AMF that can serve it: that set's
  -- serving AMFs and names are the answer, and other attributes stay.
  abbrev pub Chooses :
      List Snssai → List (AmfInfo m) → m.auth.Object → Bool × m.auth.Object → Type 0
  Chooses rs sets auth (found, auth') =
      ((found ≡ false) × (auth' ≡ auth) × All (λ s. serving rs s.amf_list ≡ []) sets)
      ⊎ ((before : List (AmfInfo m)) × (set : AmfInfo m) × (after : List (AmfInfo m)) × (sets
            ≡ before ++ set ∷ after)
          × All (λ s. serving rs s.amf_list ≡ []) before
          × (serving rs set.amf_list ≢ [])
          × (found ≡ true)
          × (m.auth.get auth' ≡ record (m.auth.get auth) {
            target_amf_set = some set.target_amf_set;
            candidate_amf_list = some (serving rs set.amf_list);
            nrf_amf_set = some set.nrf_amf_set;
            nrf_amf_set_nf_mgt_uri = some set.nrf_amf_set_mgt;
          }))

  pub push_candidates-serving :
      (rs : List Snssai) (amfs : List (String × List AvailabilityData)) (ids : List String)
      → push_candidates m rs amfs ids ≡ ids ++ serving rs amfs
  unfolding push_candidates
  push_candidates-serving rs [] ids = rw append-nil
  push_candidates-serving rs ((i, ds) ∷ amfs) ids = elim (Bool-cases (amf_serves m rs ds)) [
    | inl e ↦ rw e (push_candidates-serving rs amfs (ids ++ i ∷ []) ∙ append_assoc ids (i ∷ []) _)
    | inr e ↦ rw e (push_candidates-serving rs amfs ids)
  ]

  pub get-set_candidates :
      (set : AmfInfo m) (ids : List String) (auth : m.auth.Object)
      → m.auth.get (set_candidates m set ids auth) ≡ record (m.auth.get auth) {
        target_amf_set = some set.target_amf_set;
        candidate_amf_list = some ids;
        nrf_amf_set = some set.nrf_amf_set;
        nrf_amf_set_nf_mgt_uri = some set.nrf_amf_set_mgt;
      }
  unfolding set_candidates
  get-set_candidates set ids auth = simp (
    m.auth.get-set_nrf_amf_set_nf_mgt_uri, m.auth.get-set_nrf_amf_set,
    m.auth.get-set_target_amf_set, m.auth.get-set_candidate_amf_list,
  )

  Chooses-skip :
      (rs : List Snssai) (set : AmfInfo m) (sets : List (AmfInfo m)) (auth : m.auth.Object)
      (out : Bool × m.auth.Object)
      → serving rs set.amf_list ≡ []
      → Chooses rs sets auth out
      → Chooses rs (set ∷ sets) auth out
  Chooses-skip rs set sets auth out e (inl (f, a, all)) = inl (f, a, (e, all))
  Chooses-skip rs set sets auth out e (inr (before, s, after, split, all, some_id, f, g)) =
      inr (set ∷ before, s, after, ap (◌∷◌ set) split, (e, all), some_id, f, g)

  search_step :
      (rs : List Snssai) (set : AmfInfo m) (sets : List (AmfInfo m)) (auth : m.auth.Object)
      (ids : List String)
      → serving rs set.amf_list ≡ ids
      → Chooses rs sets auth (search_amf_sets m rs sets [] auth)
      → Chooses rs (set ∷ sets) auth (
          if not (is_nil ids)
          then (true, set_candidates m set ids auth)
          else search_amf_sets m rs sets ids auth)
  search_step rs set sets auth [] e h =
      Chooses-skip rs set sets auth (search_amf_sets m rs sets [] auth) e h
  search_step rs set sets auth (i ∷ ids) e h =
      inr ([], set, sets, refl, tt, (λ z. cc), refl, rw e (get-set_candidates set (i ∷ ids) auth))

  search_amf_sets-Chooses :
      (rs : List Snssai) (sets : List (AmfInfo m)) (auth : m.auth.Object)
      → Chooses rs sets auth (search_amf_sets m rs sets [] auth)
  unfolding search_amf_sets
  search_amf_sets-Chooses rs [] auth = inl (refl, refl, tt)
  search_amf_sets-Chooses rs (set ∷ sets) auth = rw (push_candidates-serving rs set.amf_list []) (
      search_step rs set sets auth (serving rs set.amf_list) refl
        (search_amf_sets-Chooses rs sets auth))

  -- The first AMF set of the configuration with an AMF that can serve the request is chosen, with all
  -- its serving AMFs; the request fails, with no change, exactly if there is no such set.
  pub get_valid_amfset-Chooses :
      (cfg : NssfConfig m) (rs : List Snssai) (auth : m.auth.Object)
      → Chooses rs cfg.amf_info_list auth (get_valid_amfset m cfg rs auth)
  unfolding get_valid_amfset
  get_valid_amfset-Chooses cfg rs auth = search_amf_sets-Chooses rs cfg.amf_info_list auth
