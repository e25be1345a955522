-- ===== src/Selection/AmfSets/Extend.antt =====
-- AMF sets behind the one that is chosen play no part.
use oai_cn5g_nssf.Base.{
  String, ◌≡◌, refl, Bool, true, not, List, [], ◌∷◌, ◌++◌, is_nil, if◌then◌else◌,
}
use oai_cn5g_nssf.Model.{Model}
use oai_cn5g_nssf.Config.{AmfInfo, NssfConfig}
use oai_cn5g_nssf.Selection.AmfSets.{
  push_candidates, set_candidates, search_amf_sets, get_valid_amfset,
}

module _ (m : Model) where
  open m use {snssai.{Object as Snssai}}

  by_candidates :
      (set : AmfInfo m) (ids : List String) (auth : m.auth.Object)
      (longer rest : Bool × m.auth.Object)
      → (rest.0 ≡ true → longer ≡ rest)
      → (if not (is_nil ids) then (true, set_candidates m set ids auth) else rest).0 ≡ true
      → (if not (is_nil ids) then (true, set_candidates m set ids auth) else longer)
        ≡ (if not (is_nil ids) then (true, set_candidates m set ids auth) else rest)
  by_candidates set [] auth longer rest h found = h found
  by_candidates set (i ∷ ids) auth longer rest h found = refl

  search_amf_sets-append :
      (rs : List Snssai) (sets more : List (AmfInfo m)) (ids : List String) (auth : m.auth.Object)
      → (search_amf_sets m rs sets ids auth).0 ≡ true
      → search_amf_sets m rs (sets ++ more) ids auth ≡ search_amf_sets m rs sets ids auth
  unfolding search_amf_sets
  search_amf_sets-append rs [] more ids auth found = absurd (cc)
  search_amf_sets-append rs (set ∷ sets) more ids auth found =
      let ids' = push_candidates m rs set.amf_list ids in
      by_candidates set ids' auth _ _ (search_amf_sets-append rs sets more ids' auth) found

  -- An AMF set that is found is found in an extended list too, with the same answer.
  pub get_valid_amfset-append :
      (cfg cfg' : NssfConfig m) (more : List (AmfInfo m)) (rs : List Snssai) (auth : m.auth.Object)
      → cfg'.amf_info_list ≡ cfg.amf_info_list ++ more
      → (get_valid_amfset m cfg rs auth).0 ≡ true
      → get_valid_amfset m cfg' rs auth ≡ get_valid_amfset m cfg rs auth
  unfolding get_valid_amfset
  get_valid_amfset-append cfg cfg' more rs auth e found =
      rw e (search_amf_sets-append rs cfg.amf_info_list more [] auth found)
