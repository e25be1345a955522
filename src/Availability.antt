-- ===== src/Availability.antt =====
-- NSSAI availability: src/nssf_app/nssf_slice_availability.cpp. The configuration is a global that the
-- handlers might write, so it is an argument and a result. `amf_set_present` copies the AMF set into
-- the local `amf_info`, and the loop `for (auto amf : amf_info.amf_List)` copies each entry.
pub mod Create
use oai_cn5g_nssf.Base.{
  ℕ, String, Bool, true, false, not, List, [], ◌∷◌, ◌++◌, ◌==◌, string_equality, if◌then◌else◌,
}
use oai_cn5g_nssf.Model.{Model}
use oai_cn5g_nssf.Config.{AmfInfo, NssfConfig}

-- What `handle_create_nssai_availability` leaves behind: its result, the status code, the local copy
-- of the AMF set, which is lost at the return, and the configuration.
pub record Created (m : Model) : Type 0 where
  pub created : Bool
  pub http_code : ℕ
  pub amf_info : AmfInfo m
  pub nssf_cfg : NssfConfig m

module _ (m : Model) where
  open m use {
    AvailabilityData, AvailabilityInfo, amf_set_id_is_set, get_amf_set_id,
    get_supported_nssai_availability_data,
  }

  -- A default-constructed `amf_info_t`
  abbrev pub amf_info_init : AmfInfo m
  amf_info_init = record {
    target_amf_set = "";
    nrf_amf_set = "";
    nrf_amf_set_mgt = "";
    amf_list = [];
  }

  search_amf_set : String → List (AmfInfo m) → AmfInfo m → Bool × AmfInfo m
  search_amf_set name [] amf_info = (false, amf_info)
  search_amf_set name (set ∷ sets) amf_info =
      let rest = search_amf_set name sets amf_info in
      if set.target_amf_set == name then (true, set) else rest

  amf_set_present : NssfConfig m → String → AmfInfo m → Bool × AmfInfo m
  unfolding search_amf_set
  amf_set_present cfg name amf_info = search_amf_set name cfg.amf_info_list amf_info

  -- The loop over the AMFs of the set. The entry that it finds is a copy, so clearing it and giving
  -- it the new data changes nothing but the copy, which is the second part of the result.
  replace_existing :
      String
      → List AvailabilityData
      → List (String × List AvailabilityData)
      → Bool × List (String × List AvailabilityData)
  replace_existing nf_id info [] = (false, [])
  replace_existing nf_id info ((id, held) ∷ amfs) =
      let rest = replace_existing nf_id info amfs in
      if id == nf_id then (true, (id, info) ∷ []) else rest

  -- What `handle_create_nssai_availability` does in an AMF set that it has found.
  store : NssfConfig m → AmfInfo m → String → List AvailabilityData → ℕ → Created m
  unfolding replace_existing
  store cfg amf_info nf_id info http_code =
      let (update_done, copies) = replace_existing nf_id info amf_info.amf_list in
      if not update_done
      then record {
        created = true;
        http_code = m.status.no_content;
        amf_info = record amf_info { amf_list = amf_info.amf_list ++ (nf_id, info) ∷ [] };
        nssf_cfg = cfg;
      }
      else record {
        created = true;
        http_code = m.status.no_content;
        amf_info = amf_info;
        nssf_cfg = cfg;
      }

  unfoldable pub handle_create_nssai_availability :
      NssfConfig m → String → AvailabilityInfo → ℕ → Created m
  unfolding amf_set_present store
  handle_create_nssai_availability cfg nf_id info http_code =
      let (present, amf_info) = amf_set_present cfg (get_amf_set_id info) amf_info_init in
      if amf_set_id_is_set info
      then (if not (get_amf_set_id info == "")
          then (if present
              then store cfg amf_info nf_id (get_supported_nssai_availability_data info) http_code
              else refused)
          else record {
            created = true;
            http_code = http_code;
            amf_info = amf_info_init;
            nssf_cfg = cfg;
          })
      else refused
    where
      refused : Created m
      refused = record {
        created = false;
        http_code = m.status.service_unavailable;
        amf_info = amf_info_init;
        nssf_cfg = cfg;
      }

  -- The handlers that are still to be written: the result, and the status code as it was.
  unfoldable pub handle_update_nssai_availability :
      {PatchItem : Type 0} → String → List PatchItem → ℕ → Bool × ℕ
  handle_update_nssai_availability nf_id patch_items http_code = (false, http_code)

  unfoldable pub handle_remove_nssai_availability : String → ℕ → Bool × ℕ
  handle_remove_nssai_availability nf_id http_code = (false, http_code)

  unfoldable pub handle_create_subscription_nssai_availability :
      {Subscription : Type 0} → Subscription → ℕ → Bool × ℕ
  handle_create_subscription_nssai_availability subscription http_code = (false, http_code)

  unfoldable pub handle_update_subscription_nssai_availability :
      {Subscription : Type 0} → Subscription → ℕ → Bool × ℕ
  handle_update_subscription_nssai_availability subscription http_code = (false, http_code)

  unfoldable pub handle_remove_subscription_nssai_availability : String → ℕ → Bool × ℕ
  handle_remove_subscription_nssai_availability subscription_id http_code = (false, http_code)
