-- ===== src/Selection/AmfSets/Alike.antt =====
-- Two requests that every list of AMFs serves alike get the same AMF set.
use oai_cn5g_nssf.Base.{
  String, ◌≡◌, refl, ◌∙◌, sym, Bool, true, not, Option, some, List, [], ◌∷◌, is_nil, if◌then◌else◌,
}
use oai_cn5g_nssf.Model.{Model}
use oai_cn5g_nssf.Config.{AmfInfo, NssfConfig}
use oai_cn5g_nssf.Selection.AmfSets.{
  push_candidates, set_candidates, search_amf_sets, get_valid_amfset,
}
use oai_cn5g_nssf.Selection.AmfSets.Choice.{serving, push_candidates-serving, get-set_candidates}

-- What an answer says of the AMF set.
pub record AmfView : Type 0 where
  pub target_amf_set : Option String
  pub candidate_amf_list : Option (List String)
  pub nrf_amf_set : Option String
  pub nrf_amf_set_mgt : Option String

module _ (m : Model) where
  open m use {snssai.{Object as Snssai}, AvailabilityData}

  abbrev pub amf_view : m.auth.Object → AmfView
  amf_view auth = record {
    target_amf_set = (m.auth.get auth).target_amf_set;
    candidate_amf_list = (m.auth.get auth).candidate_amf_list;
    nrf_amf_set = (m.auth.get auth).nrf_amf_set;
    nrf_amf_set_mgt = (m.auth.get auth).nrf_amf_set_nf_mgt_uri;
  }

  amf_view-set_candidates :
      (set : AmfInfo m) (ids : List String) (auth : m.auth.Object)
      → amf_view (set_candidates m set ids auth) ≡ record {
        target_amf_set = some set.target_amf_set;
        candidate_amf_list = some ids;
        nrf_amf_set = some set.nrf_amf_set;
        nrf_amf_set_mgt = some set.nrf_amf_set_mgt;
      }
  amf_view-set_candidates set ids auth = rw (get-set_candidates m set ids auth) refl

  -- Both searches find an AMF set or both do not, and their answers say the same of it.
  abbrev pub Same : Bool × m.auth.Object → Bool × m.auth.Object → Type 0
  Same (found, auth) (found', auth') = (found ≡ found') × (amf_view auth ≡ amf_view auth')

  set-Same :
      (set : AmfInfo m) (ids : List String) (auth auth' : m.auth.Object)
      (rest rest' : Bool × m.auth.Object)
      → Same rest rest'
      → Same
          (if not (is_nil ids) then (true, set_candidates m set ids auth) else rest)
          (if not (is_nil ids) then (true, set_candidates m set ids auth') else rest')
  set-Same set [] auth auth' rest rest' h = h
  set-Same set (i ∷ ids) auth auth' rest rest' h = (
    refl,
    amf_view-set_candidates set (i ∷ ids) auth ∙ sym (amf_view-set_candidates set (i ∷ ids) auth'),
  )

  module _ (rs rs' : List Snssai)
      (alike : (amfs : List (String × List AvailabilityData))
        → serving m rs amfs ≡ serving m rs' amfs) where
    push_candidates-Alike :
        (amfs : List (String × List AvailabilityData)) (ids : List String)
        → push_candidates m rs amfs ids ≡ push_candidates m rs' amfs ids
    push_candidates-Alike amfs ids =
        rw
          (
            push_candidates-serving m rs amfs ids,
            push_candidates-serving m rs' amfs ids,
            alike amfs,
          )
          refl

    search_amf_sets-Same :
        (sets : List (AmfInfo m)) (ids : List String) (auth auth' : m.auth.Object)
        → amf_view auth ≡ amf_view auth'
        → Same (search_amf_sets m rs sets ids auth) (search_amf_sets m rs' sets ids auth')
    unfolding search_amf_sets
    search_amf_sets-Same [] ids auth auth' e = (refl, e)
    search_amf_sets-Same (set ∷ sets) ids auth auth' e =
        let ids' = push_candidates m rs' set.amf_list ids in
        rw (push_candidates-Alike set.amf_list ids)
          (set-Same set ids' auth auth' _ _ (search_amf_sets-Same sets ids' auth auth' e))

    pub get_valid_amfset-Same :
        (cfg : NssfConfig m) (auth auth' : m.auth.Object)
        → amf_view auth ≡ amf_view auth'
        → Same (get_valid_amfset m cfg rs auth) (get_valid_amfset m cfg rs' auth')
    unfolding get_valid_amfset
    get_valid_amfset-Same cfg auth auth' e = search_amf_sets-Same cfg.amf_info_list [] auth auth' e
