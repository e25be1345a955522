-- ===== src/Selection/Lookup.antt =====
-- `validate_nsi` and `validate_ta` of src/nssf_app/nssf_slice_selection.cpp.
pub mod First
pub mod Extend
pub mod Keys
use oai_cn5g_nssf.Base.{
  Bool, true, false, ◌&&◌, List, [], ◌∷◌, ◌==◌, string_equality, if◌then◌else◌,
}
use oai_cn5g_nssf.Model.{Model}
use oai_cn5g_nssf.Config.{NsiInfo, TaInfo, NssfConfig}
use oai_cn5g_nssf.Selection.Compare.{compare_snssai as compare}

module _ (m : Model) where
  open m use {
    snssai.{Object as Snssai},
    location.{get_plmn, Tai, get_plmn_id, get_tac},
    PduSessionInfo,
    get_snssai,
  }

  -- The writes of `validate_nsi` for the entry that it found.
  copy_nsi : m.nsi.Object → m.nsi.Object → m.nsi.Object
  copy_nsi from to =
      let n = m.nsi.set_nrf_id to (m.nsi.get from).nrf_id in
      let n' =
        if (m.nsi.get from).nsi_id_is_set then m.nsi.set_nsi_id n (m.nsi.get from).nsi_id else n in
      if (m.nsi.get from).nrf_nf_mgt_uri_is_set
      then m.nsi.set_nrf_nf_mgt_uri n' (m.nsi.get from).nrf_nf_mgt_uri
      else n'

  search_nsi : Snssai → List (NsiInfo m) → m.nsi.Object → Bool × m.nsi.Object
  search_nsi s [] nsi_info = (false, nsi_info)
  search_nsi s (item ∷ items) nsi_info =
      let rest = search_nsi s items nsi_info in
      if compare m s item.snssai then (true, copy_nsi item.nsi_info nsi_info) else rest

  unfoldable pub validate_nsi : NssfConfig m → PduSessionInfo → m.nsi.Object → Bool × m.nsi.Object
  unfolding copy_nsi search_nsi
  validate_nsi cfg slice_info nsi_info =
      search_nsi (get_snssai slice_info) cfg.nsi_info_list nsi_info

  search_ta : Tai → List (TaInfo m) → Bool
  search_ta tai [] = false
  search_ta tai (item ∷ items) =
      let plmn = get_plmn (get_plmn_id tai) in
      let item_plmn = get_plmn (get_plmn_id item.tai) in
      let rest = search_ta tai items in
      if plmn.mcc == item_plmn.mcc && plmn.mnc == item_plmn.mnc && get_tac tai == get_tac item.tai
      then true
      else rest

  unfoldable pub validate_ta : NssfConfig m → Tai → Bool
  unfolding search_ta
  validate_ta cfg tai = search_ta tai cfg.ta_info_list
