-- ===== src/Selection/AmfSets.antt =====
-- `get_valid_amf` and `get_valid_amfset` of src/nssf_app/nssf_slice_selection.cpp.
pub mod Match
pub mod Choice
pub mod Order
pub mod Alike
pub mod Keys
pub mod Extend
pub mod Offer
use oai_cn5g_nssf.Base.{
  String, Bool, true, false, not, List, [], ◌∷◌, ◌++◌, ltb, length, is_nil, if◌then◌else◌,
}
use oai_cn5g_nssf.Model.{Model}
use oai_cn5g_nssf.Config.{AmfInfo, NssfConfig}
use oai_cn5g_nssf.Selection.Compare.{compare_snssai as compare}

module _ (m : Model) where
  open m use {
    snssai.{Object as Snssai, init as snssai_init, set_sst, set_sd},
    ext_snssai.{Object as ExtSnssai, get as get_ext},
    AvailabilityData,
    get_supported_snssai_list,
  }

  -- `e_nssai_tmp` in `get_valid_amf`
  pub from_ext : ExtSnssai → Snssai
  from_ext e =
      let copy = set_sst snssai_init (get_ext e).sst in
      if (get_ext e).sd_is_set then set_sd copy (get_ext e).sd else copy

  -- The inner loop of `get_valid_amf`, which runs over the `amf_matched` so far.
  match_ext : Snssai → List ExtSnssai → Bool → Bool
  match_ext r [] matched = matched
  match_ext r (e ∷ es) matched = match_ext r es (if compare m r (from_ext e) then true else matched)

  -- Its outer loop, over `rejected_snssai`.
  reject_unmatched : List ExtSnssai → List Snssai → List Snssai → List Snssai
  reject_unmatched es [] rejected = rejected
  reject_unmatched es (r ∷ rs) rejected =
      reject_unmatched es rs (if not (match_ext r es false) then rejected ++ r ∷ [] else rejected)

  unfoldable pub get_valid_amf : List ExtSnssai → List Snssai → Bool
  unfolding from_ext match_ext reject_unmatched
  get_valid_amf es rs = if ltb 0 (length (reject_unmatched es rs [])) then false else true

  -- The innermost loop of `get_valid_amfset`, with its `break`: whether the AMF is pushed.
  pub amf_serves : List Snssai → List AvailabilityData → Bool
  amf_serves rs [] = false
  amf_serves rs (d ∷ ds) =
      if get_valid_amf (get_supported_snssai_list d) rs then true else amf_serves rs ds

  pub push_candidates :
      List Snssai → List (String × List AvailabilityData) → List String → List String
  push_candidates rs [] candidates = candidates
  push_candidates rs ((nf_id, ds) ∷ amfs) candidates =
      push_candidates rs amfs (if amf_serves rs ds then candidates ++ nf_id ∷ [] else candidates)

  pub set_candidates : AmfInfo m → List String → m.auth.Object → m.auth.Object
  set_candidates set candidates auth =
      m.auth.set_nrf_amf_set_nf_mgt_uri
        (m.auth.set_nrf_amf_set
          (m.auth.set_target_amf_set (m.auth.set_candidate_amf_list auth candidates)
            set.target_amf_set)
          set.nrf_amf_set)
        set.nrf_amf_set_mgt

  -- The loop over the AMF sets; `candidate_amf_list` is declared outside it.
  search_amf_sets :
      List Snssai → List (AmfInfo m) → List String → m.auth.Object → Bool × m.auth.Object
  search_amf_sets rs [] candidates auth = (false, auth)
  search_amf_sets rs (set ∷ sets) candidates auth =
      let candidates' = push_candidates rs set.amf_list candidates in
      let rest = search_amf_sets rs sets candidates' auth in
      if not (is_nil candidates') then (true, set_candidates set candidates' auth) else rest

  unfoldable pub get_valid_amfset :
      NssfConfig m → List Snssai → m.auth.Object → Bool × m.auth.Object
  unfolding search_amf_sets push_candidates amf_serves set_candidates get_valid_amf
  get_valid_amfset cfg rs auth = search_amf_sets rs cfg.amf_info_list [] auth
