-- ===== src/Selection/AmfSets/Match.antt =====
-- The loops of `get_valid_amf` against a relation between S-NSSAIs.
use oai_cn5g_nssf.Base.{
  String, ◌≡◌, refl, ◌∙◌, ◌↔◌, ◌⊎◌, inl, inr, ◌≤ℤ◌, if◌then◌else◌, arith, int_beq_iff, leb_ℤ_iff,
  eq_iff, Bool, false, true, not, ◌||◌, List, [], ◌∷◌, ◌++◌, any, all, filter, any_iff, all_iff,
  Any, All, filter-not-all, all-filter-not, Bool-cases,
}
use mathlib.Core.List.{append_assoc, append-nil}
use oai_cn5g_nssf.Model.{Model, get-fresh}
use oai_cn5g_nssf.Selection.Compare.{compare_snssai}
use oai_cn5g_nssf.Selection.AmfSets.{
  from_ext, match_ext, reject_unmatched, get_valid_amf, amf_serves,
}

module _ (m : Model) where
  open m use {
    snssai.{Object as Snssai, get},
    ext_snssai.{Object as ExtSnssai, get as get_ext},
    sst_max_standardized_value,
    AvailabilityData,
    get_supported_snssai_list,
  }

  -- The SD that an AMF's entry stands for: empty where it is not set.
  abbrev pub ext_sd : ExtSnssai → String
  ext_sd e = if (get_ext e).sd_is_set then (get_ext e).sd else ""

  -- An AMF's entry covers a requested S-NSSAI.
  abbrev pub Covers : Snssai → ExtSnssai → Type 0
  Covers r e =
      ((get r).sst ≡ (get_ext e).sst)
      × (sst_max_standardized_value ≤ℤ (get r).sst
          → ((get r).sd_is_set ≡ true) ⊎ ((get_ext e).sd_is_set ≡ true)
          → (get r).sd ≡ ext_sd e)

  pub get-from_ext :
      (e : ExtSnssai)
      → get (from_ext m e)
        ≡ record { sst = (get_ext e).sst; sd = ext_sd e; sd_is_set = (get_ext e).sd_is_set }
  unfolding from_ext
  get-from_ext e = get-fresh m.snssai (get_ext e).sst (get_ext e).sd_is_set (get_ext e).sd

  pub compare_iff :
      (r : Snssai) (e : ExtSnssai) → (compare_snssai m r (from_ext m e) ≡ true) ↔ Covers r e
  unfolding compare_snssai
  compare_iff r e = rw (get-from_ext e) (
      ground (
        arith,
        int_beq_iff (get r).sst (get_ext e).sst,
        eq_iff (get r).sd (ext_sd e),
        leb_ℤ_iff sst_max_standardized_value (get r).sst,
      ))

  match_ext-any :
      (r : Snssai) (es : List ExtSnssai) (matched : Bool)
      → match_ext m r es matched ≡ any (λ e. compare_snssai m r (from_ext m e)) es || matched
  unfolding match_ext
  match_ext-any r [] matched = refl
  match_ext-any r (e ∷ es) matched =
      ground (arith, match_ext-any r es matched, match_ext-any r es true)

  match_ext_iff :
      (r : Snssai) (es : List ExtSnssai) → (match_ext m r es false ≡ true) ↔ Any (Covers r) es
  match_ext_iff r es = ground (
    arith,
    match_ext-any r es false,
    any_iff {P = Covers r} (λ e. compare_snssai m r (from_ext m e)) (compare_iff r) es,
  )

  reject_unmatched-filter :
      (es : List ExtSnssai) (rs rejected : List Snssai)
      → reject_unmatched m es rs rejected
        ≡ rejected ++ filter (λ r. not (match_ext m r es false)) rs
  unfolding reject_unmatched
  reject_unmatched-filter es [] rejected = rw append-nil
  reject_unmatched-filter es (r ∷ rs) rejected = elim (Bool-cases (match_ext m r es false)) [
    | inl e ↦ rw e (reject_unmatched-filter es rs rejected)
    | inr e ↦ rw e (reject_unmatched-filter es rs (rejected ++ r ∷ []) ∙ append_assoc rejected _ _)
  ]

  get_valid_amf-all :
      (es : List ExtSnssai) (rs : List Snssai)
      → get_valid_amf m es rs ≡ all (λ r. match_ext m r es false) rs
  unfolding get_valid_amf
  get_valid_amf-all es rs =
      let p = λ (r : Snssai). match_ext m r es false in
      ground (arith, reject_unmatched-filter es rs [], filter-not-all p rs, all-filter-not p rs)

  -- An entry list passes exactly when each requested S-NSSAI is covered by one of its entries.
  pub get_valid_amf_iff :
      (es : List ExtSnssai) (rs : List Snssai)
      → (get_valid_amf m es rs ≡ true) ↔ All (λ r. Any (Covers r) es) rs
  get_valid_amf_iff es rs =
      rw (get_valid_amf-all es rs)
        (all_iff (λ r. match_ext m r es false) (λ r. match_ext_iff r es) rs)

  amf_serves-any :
      (rs : List Snssai) (ds : List AvailabilityData)
      → amf_serves m rs ds ≡ any (λ d. get_valid_amf m (get_supported_snssai_list d) rs) ds
  unfolding amf_serves
  amf_serves-any rs [] = refl
  amf_serves-any rs (d ∷ ds) = ground (arith, amf_serves-any rs ds)

  -- An AMF can serve the request: for one of its tracking areas all S-NSSAIs are covered.
  abbrev pub Serves : List Snssai → List AvailabilityData → Type 0
  Serves rs ds = Any (λ d. All (λ r. Any (Covers r) (get_supported_snssai_list d)) rs) ds

  -- An AMF is pushed to the candidates exactly if, for one of its tracking areas, each requested S-NSSAI
  -- is covered by some supported one: equal SSTs, and from the end of the standardized range on, if one
  -- of the two has an SD, equal SDs.
  pub amf_serves_iff :
      (rs : List Snssai) (ds : List AvailabilityData) → (amf_serves m rs ds ≡ true) ↔ Serves rs ds
  amf_serves_iff rs ds = rw (amf_serves-any rs ds) (
      any_iff (λ d. get_valid_amf m (get_supported_snssai_list d) rs)
        (λ d. get_valid_amf_iff (get_supported_snssai_list d) rs) ds)
