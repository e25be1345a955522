-- ===== src/Selection/Lookup/Keys.antt =====
-- Requests for PDU sessions of the same slice find the same entry.
use oai_cn5g_nssf.Base.{◌≡◌, refl, List, [], ◌∷◌, All}
use oai_cn5g_nssf.Model.{Model}
use oai_cn5g_nssf.Config.{NsiInfo, NssfConfig}
use oai_cn5g_nssf.Config.Parse.WellFormed.{NamesPlain}
use oai_cn5g_nssf.Selection.Compare.Key.{SameSlice, compare_snssai_alike}
use oai_cn5g_nssf.Selection.Lookup.{search_nsi, validate_nsi}

module _ (m : Model) where
  open m use {snssai.{Object as Snssai}, PduSessionInfo, get_snssai}

  search_nsi-SameSlice :
      (s s' : Snssai) (items : List (NsiInfo m)) (start : m.nsi.Object)
      → SameSlice m s s'
      → All (NamesPlain m) items
      → search_nsi m s items start ≡ search_nsi m s' items start
  unfolding search_nsi
  search_nsi-SameSlice s s' [] start same all = refl
  search_nsi-SameSlice s s' (item ∷ items) start same (plain, all) =
      rw
        (
          compare_snssai_alike m s s' item.snssai same plain,
          search_nsi-SameSlice s s' items start same all,
        )
        refl

  pub validate_nsi-SameSlice :
      (cfg : NssfConfig m) (info info' : PduSessionInfo) (start : m.nsi.Object)
      → SameSlice m (get_snssai info) (get_snssai info')
      → All (NamesPlain m) cfg.nsi_info_list
      → validate_nsi m cfg info start ≡ validate_nsi m cfg info' start
  unfolding validate_nsi
  validate_nsi-SameSlice cfg info info' start same plain =
      search_nsi-SameSlice (get_snssai info) (get_snssai info') cfg.nsi_info_list start same plain
