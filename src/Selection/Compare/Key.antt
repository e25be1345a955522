-- ===== src/Selection/Compare/Key.antt =====
-- `compare_snssai` compares a key: it is an equivalence relation on S-NSSAIs whose SD is empty where
-- it is not set.
use oai_cn5g_nssf.Base.{
  String, ◌≡◌, refl, sym, ◌∙◌, Bool-ext, ◌↔◌, ℤ, leb_ℤ, if◌then◌else◌, arith, int_beq_iff, eq_iff,
  false, true,
}
use oai_cn5g_nssf.Model.{Model}
use oai_cn5g_nssf.Selection.Compare.{compare_snssai}

module _ (m : Model) where
  open m use {snssai.{Object as Snssai, get}, sst_max_standardized_value}

  -- The generated constructor leaves the SD empty, and only `setSd` changes it.
  abbrev pub HasPlainSd : Snssai → Type 0
  HasPlainSd s = (get s).sd_is_set ≡ false → (get s).sd ≡ ""

  -- The part of an S-NSSAI that tells slices apart: the SST, and from the end of the standardized
  -- range on the SD too.
  abbrev pub slice_key : Snssai → ℤ × String
  slice_key s =
      ((get s).sst, if leb_ℤ sst_max_standardized_value (get s).sst then (get s).sd else "")

  -- Two S-NSSAIs whose SD is empty where it is not set compare as equal exactly if they have the same
  -- key: the SST, and the SD too from the end of the standardized range on.
  pub compare_snssai-eq-key :
      (a b : Snssai)
      → HasPlainSd a
      → HasPlainSd b
      → (compare_snssai m a b ≡ true) ↔ (slice_key a ≡ slice_key b)
  unfolding compare_snssai
  compare_snssai-eq-key a b ha hb =
      ground (arith, int_beq_iff (get a).sst (get b).sst, eq_iff (get a).sd (get b).sd)

  pub compare_snssai_refl : (a : Snssai) → compare_snssai m a a ≡ true
  unfolding compare_snssai
  compare_snssai_refl a =
      ground (arith, int_beq_iff (get a).sst (get a).sst, eq_iff (get a).sd (get a).sd)

  pub compare_snssai_trans :
      (a b c : Snssai)
      → HasPlainSd a
      → HasPlainSd b
      → HasPlainSd c
      → compare_snssai m a b ≡ true
      → compare_snssai m b c ≡ true
      → compare_snssai m a c ≡ true
  compare_snssai_trans a b c ha hb hc p q =
      (compare_snssai-eq-key a c ha hc).1
        ((compare_snssai-eq-key a b ha hb).0 p ∙ (compare_snssai-eq-key b c hb hc).0 q)

  -- Two S-NSSAIs with the same key, both with an empty SD where it is not set.
  abbrev pub SameSlice : Snssai → Snssai → Type 0
  SameSlice a b = HasPlainSd a × HasPlainSd b × (slice_key a ≡ slice_key b)

  pub compare_snssai-SameSlice :
      (a b c d : Snssai)
      → SameSlice a b
      → SameSlice c d
      → compare_snssai m a c ≡ true
      → compare_snssai m b d ≡ true
  compare_snssai-SameSlice a b c d (pa, pb, e) (pc, pd, f) h =
      (compare_snssai-eq-key b d pb pd).1 (sym e ∙ (compare_snssai-eq-key a c pa pc).0 h ∙ f)

  -- S-NSSAIs of the same slice compare alike with another one.
  pub compare_snssai_alike :
      (a b c : Snssai) → SameSlice a b → HasPlainSd c → compare_snssai m a c ≡ compare_snssai m b c
  compare_snssai_alike a b c (pa, pb, e) pc =
      let same : SameSlice c c = (pc, pc, refl) in
      Bool-ext _ _ (compare_snssai-SameSlice a b c c (pa, pb, e) same)
        (compare_snssai-SameSlice b a c c (pb, pa, sym e) same)
