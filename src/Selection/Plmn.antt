-- ===== src/Selection/Plmn.antt =====
-- `set_allowed_nssai`, `validate_rnssai_in_ta` and `validate_rnssai_in_plmn` of
-- src/nssf_app/nssf_slice_selection.cpp.
pub mod Split
use oai_cn5g_nssf.Base.{
  Bool, true, false, not, List, [], ◌∷◌, ◌++◌, map, ◌==◌, nat_equality, length, if◌then◌else◌,
}
use oai_cn5g_nssf.Model.{Model}
use oai_cn5g_nssf.Selection.Compare.{compare_snssai as compare}

module _ (m : Model) where
  open m use {
    snssai.{Object as Snssai, get, init as snssai_init, set_sst, set_sd},
    nssai.{
      SubscribedSnssai, get_subscribed_snssai, AllowedSnssai, allowed_snssai_init,
      set_allowed_snssai, access_type_init, set_3gpp_access, allowed_nssai_init, set_access_type,
      set_allowed_snssai_list,
    },
    RegistrationInfo,
    get_requested_nssai,
    get_subscribed_nssai,
  }

  -- The body of the loop of `set_allowed_nssai`: the copy of one S-NSSAI.
  to_allowed : Snssai → AllowedSnssai
  to_allowed s =
      let copy = set_sst snssai_init (get s).sst in
      set_allowed_snssai allowed_snssai_init
        (if (get s).sd_is_set then set_sd copy (get s).sd else copy)

  set_allowed_nssai : List Snssai → m.auth.Object → m.auth.Object
  unfolding to_allowed
  set_allowed_nssai nssai auth = m.auth.set_allowed_nssai_list auth (
      set_allowed_snssai_list
        (set_access_type allowed_nssai_init (set_3gpp_access access_type_init))
        (map to_allowed nssai)
      ∷ [])

  unfoldable pub validate_rnssai_in_ta : RegistrationInfo → m.auth.Object → Bool × m.auth.Object
  validate_rnssai_in_ta slice_info auth = (true, auth)

  match_subscribed : Snssai → List SubscribedSnssai → Bool → Bool
  match_subscribed r [] matched = matched
  match_subscribed r (s ∷ ss) matched =
      match_subscribed r ss (if compare m r (get_subscribed_snssai s) then true else matched)

  -- The loop of `validate_rnssai_in_plmn`: the rejected and the matched S-NSSAIs.
  split_requested :
      List SubscribedSnssai → List Snssai → List Snssai → List Snssai → List Snssai × List Snssai
  split_requested ss [] rejected matched = (rejected, matched)
  split_requested ss (r ∷ rs) rejected matched =
      let hit = match_subscribed r ss false in
      split_requested ss rs (if not hit then rejected ++ r ∷ [] else rejected)
        (if not hit then matched else matched ++ r ∷ [])

  unfoldable pub validate_rnssai_in_plmn : RegistrationInfo → m.auth.Object → Bool × m.auth.Object
  unfolding match_subscribed split_requested set_allowed_nssai
  validate_rnssai_in_plmn slice_info auth =
      let (rejected, matched) =
        split_requested (get_subscribed_nssai slice_info) (get_requested_nssai slice_info) [] [] in
      if length rejected == length (get_requested_nssai slice_info)
      then (false, m.auth.set_rejected_nssai_in_plmn auth (get_requested_nssai slice_info))
      else (true, set_allowed_nssai matched auth)
