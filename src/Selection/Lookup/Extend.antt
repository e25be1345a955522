-- ===== src/Selection/Lookup/Extend.antt =====
-- What is found in a list is found in a longer one.
use oai_cn5g_nssf.Base.{
  ◌≡◌, refl, true, List, [], ◌∷◌, ◌++◌, string_equality, Bool-cases, inl, inr, arith,
}
use oai_cn5g_nssf.Model.{Model}
use oai_cn5g_nssf.Config.{NsiInfo, TaInfo, NssfConfig}
use oai_cn5g_nssf.Selection.Compare.{compare_snssai}
use oai_cn5g_nssf.Selection.Lookup.{search_nsi, search_ta, validate_nsi, validate_ta}

module _ (m : Model) where
  open m use {snssai.{Object as Snssai}, location.{Tai}, PduSessionInfo, get_snssai}

  search_nsi-append :
      (s : Snssai) (items more : List (NsiInfo m)) (to : m.nsi.Object)
      → (search_nsi m s items to).0 ≡ true
      → search_nsi m s (items ++ more) to ≡ search_nsi m s items to
  unfolding search_nsi
  search_nsi-append s [] more to found = absurd (cc)
  search_nsi-append s (item ∷ items) more to found =
      elim (Bool-cases (compare_snssai m s item.snssai)) [
        | inl e ↦ rw e refl
        | inr e ↦
            let rest : (search_nsi m s items to).0 ≡ true = rw e at found in
            rw e (search_nsi-append s items more to rest)
      ]

  pub validate_nsi-append :
      (cfg cfg' : NssfConfig m) (more : List (NsiInfo m)) (info : PduSessionInfo)
      (to : m.nsi.Object)
      → cfg'.nsi_info_list ≡ cfg.nsi_info_list ++ more
      → (validate_nsi m cfg info to).0 ≡ true
      → validate_nsi m cfg' info to ≡ validate_nsi m cfg info to
  unfolding validate_nsi
  validate_nsi-append cfg cfg' more info to e found =
      rw e (search_nsi-append (get_snssai info) cfg.nsi_info_list more to found)

  search_ta-append :
      (tai : Tai) (items more : List (TaInfo m))
      → search_ta m tai items ≡ true
      → search_ta m tai (items ++ more) ≡ true
  unfolding search_ta
  search_ta-append tai [] more found = absurd (cc)
  search_ta-append tai (item ∷ items) more found = ground (arith, search_ta-append tai items more)

  pub validate_ta-append :
      (cfg cfg' : NssfConfig m) (more : List (TaInfo m)) (tai : Tai)
      → cfg'.ta_info_list ≡ cfg.ta_info_list ++ more
      → validate_ta m cfg tai ≡ true
      → validate_ta m cfg' tai ≡ true
  unfolding validate_ta
  validate_ta-append cfg cfg' more tai e found =
      rw e (search_ta-append tai cfg.ta_info_list more found)
