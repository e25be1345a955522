-- ===== src/Selection/AmfSets/Order.antt =====
-- The order and the repetitions of the requested S-NSSAIs play no part in which AMFs serve them.
use oai_cn5g_nssf.Base.{
  String, ◌≡◌, refl, inl, inr, List, [], ◌∷◌, Any, All, SameMembers, flip_members, Bool-cases,
  Bool-ext, ap, All-SameMembers,
}
use oai_cn5g_nssf.Model.{Model}
use oai_cn5g_nssf.Selection.AmfSets.{amf_serves}
use oai_cn5g_nssf.Selection.AmfSets.Choice.{serving}
use oai_cn5g_nssf.Selection.AmfSets.Match.{Covers, Serves, amf_serves_iff}

module _ (m : Model) where
  open m use {snssai.{Object as Snssai}, AvailabilityData, get_supported_snssai_list}

  -- Each requested S-NSSAI is covered in the tracking area.
  abbrev pub CoversAll : List Snssai → AvailabilityData → Type 0
  CoversAll rs d = All (λ r. Any (Covers m r) (get_supported_snssai_list d)) rs

  Serves-mono :
      (rs rs' : List Snssai)
      → ((d : AvailabilityData) → CoversAll rs d → CoversAll rs' d)
      → (ds : List AvailabilityData) → Serves m rs ds
      → Serves m rs' ds
  Serves-mono rs rs' f (d ∷ ds) (inl all) = inl (f d all)
  Serves-mono rs rs' f (d ∷ ds) (inr later) = inr (Serves-mono rs rs' f ds later)
  Serves-mono rs rs' f [] never = never

  module _ (rs rs' : List Snssai)
      (there : (d : AvailabilityData) → CoversAll rs d → CoversAll rs' d)
      (back : (d : AvailabilityData) → CoversAll rs' d → CoversAll rs d) where
    amf_serves_alike : (ds : List AvailabilityData) → amf_serves m rs ds ≡ amf_serves m rs' ds
    amf_serves_alike ds =
        let (sound, complete) = amf_serves_iff m rs ds in
        let (sound', complete') = amf_serves_iff m rs' ds in
        Bool-ext (amf_serves m rs ds) (amf_serves m rs' ds)
          (λ e. complete' (Serves-mono rs rs' there ds (sound e)))
          (λ e. complete (Serves-mono rs' rs back ds (sound' e)))

    -- S-NSSAIs that are covered in the same tracking areas are served by the same AMFs.
    pub serving_alike :
        (amfs : List (String × List AvailabilityData)) → serving m rs amfs ≡ serving m rs' amfs
    serving_alike [] = refl
    serving_alike ((i, ds) ∷ amfs) = elim (Bool-cases (amf_serves m rs' ds)) [
      | inl e ↦ rw (amf_serves_alike ds, e) (ap (◌∷◌ i) (serving_alike amfs))
      | inr e ↦ rw (amf_serves_alike ds, e) (serving_alike amfs)
    ]

  pub serving-SameMembers :
      (rs rs' : List Snssai)
      → SameMembers rs rs'
      → (amfs : List (String × List AvailabilityData)) → serving m rs amfs ≡ serving m rs' amfs
  serving-SameMembers rs rs' same =
      serving_alike rs rs'
        (λ d. All-SameMembers (λ r. Any (Covers m r) (get_supported_snssai_list d)) rs rs' same)
        (λ d.
          All-SameMembers (λ r. Any (Covers m r) (get_supported_snssai_list d)) rs' rs
            (flip_members rs rs' same))
