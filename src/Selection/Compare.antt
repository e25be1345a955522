-- ===== src/Selection/Compare.antt =====
-- `compare_snssai` of src/nssf_app/nssf_slice_selection.cpp.
pub mod Key
use oai_cn5g_nssf.Base.{
  Bool, true, false, not, ◌&&◌, ◌||◌, leb_ℤ, ◌==◌, int_equality, string_equality, if◌then◌else◌,
}
use oai_cn5g_nssf.Model.{Model}

module _ (m : Model) where
  open m use {snssai.{Object as Snssai, get}, sst_max_standardized_value}

  unfoldable pub compare_snssai : Snssai → Snssai → Bool
  compare_snssai a b =
      if (get a).sst == (get b).sst
      then (if ((get a).sd_is_set || (get b).sd_is_set)
            && leb_ℤ sst_max_standardized_value (get a).sst
          then (if not ((get a).sd == (get b).sd) then false else true)
          else true)
      else false
