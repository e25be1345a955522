-- ===== src/Selection/AmfSets/Keys.antt =====
-- S-NSSAIs of the same slices are served by the same AMFs.
use oai_cn5g_nssf.Base.{String, ◌≡◌, refl, sym, List, Any, Any-mono, Within, All-Within, arith}
use oai_cn5g_nssf.Model.{Model}
use oai_cn5g_nssf.Selection.Compare.Key.{HasPlainSd, SameSlice, compare_snssai-SameSlice}
use oai_cn5g_nssf.Selection.AmfSets.{from_ext}
use oai_cn5g_nssf.Selection.AmfSets.Match.{Covers, get-from_ext, compare_iff}
use oai_cn5g_nssf.Selection.AmfSets.Choice.{serving}
use oai_cn5g_nssf.Selection.AmfSets.Order.{CoversAll, serving_alike}

module _ (m : Model) where
  open m use {
    snssai.{Object as Snssai},
    ext_snssai.{Object as ExtSnssai},
    AvailabilityData,
    get_supported_snssai_list,
  }

  -- Each of the one list is of the same slice as some of the other, and the other way round.
  abbrev pub SameSlices : List Snssai → List Snssai → Type 0
  SameSlices rs rs' = Within (SameSlice m) rs rs' × Within (SameSlice m) rs' rs

  from_ext-HasPlainSd : (e : ExtSnssai) → HasPlainSd m (from_ext m e)
  from_ext-HasPlainSd e = rw (get-from_ext m e) (λ unset. ground arith)

  Covers-SameSlice : (a b : Snssai) (e : ExtSnssai) → SameSlice m a b → Covers m b e → Covers m a e
  Covers-SameSlice a b e (pa, pb, same) h =
      let plain = from_ext-HasPlainSd e in
      let c = from_ext m e in
      (compare_iff m a e).0 (
        compare_snssai-SameSlice m b a c c (pb, pa, sym same) (plain, plain, refl)
          ((compare_iff m b e).1 h))

  CoversAll-Within :
      (rs rs' : List Snssai)
      → Within (SameSlice m) rs rs'
      → (d : AvailabilityData) → CoversAll m rs' d
      → CoversAll m rs d
  CoversAll-Within rs rs' w d =
      let es = get_supported_snssai_list d in
      All-Within (SameSlice m) (λ r. Any (Covers m r) es)
        (λ a b s. Any-mono (λ e. Covers-SameSlice a b e s) es) rs rs' w

  pub serving-SameSlices :
      (rs rs' : List Snssai)
      → SameSlices rs rs'
      → (amfs : List (String × List AvailabilityData)) → serving m rs amfs ≡ serving m rs' amfs
  serving-SameSlices rs rs' (there, back) =
      serving_alike m rs rs' (CoversAll-Within rs' rs back) (CoversAll-Within rs rs' there)
