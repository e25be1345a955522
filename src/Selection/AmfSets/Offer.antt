-- ===== src/Selection/AmfSets/Offer.antt =====
-- A reference for `get_valid_amfset` on the settings of a configuration file: which AMF set a request
-- gets, as a function of what the file says.
use oai_cn5g_nssf.Base.{
  ℤ, String, ◌≡◌, refl, sym, ap₂, ◌∙◌, subst, ◌↔◌, ◌⊎◌, inl, inr, Bool, true, not, ◌&&◌, ◌||◌,
  Option, none, some, List, [], ◌∷◌, ◌++◌, map, filter, any, all, any_iff, all_iff, Any, All,
  is_nil, if◌then◌else◌, ◌==◌, int_equality, string_equality, leb_ℤ, leb_ℤ_iff, int_beq_iff, eq_iff,
  ◌≤ℤ◌, ◌≢◌, arith, Bool-cases,
}
use oai_cn5g_nssf.Model.{Model, SnssaiAttributes}
use oai_cn5g_nssf.Config.{AmfInfo}
use oai_cn5g_nssf.Config.Yaml.{Yaml}
use oai_cn5g_nssf.Config.Parse.Loop.{All₂}
use oai_cn5g_nssf.Config.Parse.Describe.{SliceSettings, slice_attributes, text_or_empty, is_given}
use oai_cn5g_nssf.Config.Parse.Amf.{AmfSettings, AmfSetSettings, HasAmfSettings, HasAmfSetSettings}
use oai_cn5g_nssf.Selection.AmfSets.{amf_serves}
use oai_cn5g_nssf.Selection.AmfSets.Match.{Covers, amf_serves_iff}
use oai_cn5g_nssf.Selection.AmfSets.Choice.{serving}

module _ (m : Model) where
  open m use {
    snssai.{Object as Snssai, get},
    sst_max_standardized_value,
    ext_snssai.{Object as ExtSnssai, get as get_ext},
    AvailabilityData,
    get_supported_snssai_list,
  }

  -- A slice of an AMF covers a requested S-NSSAI.
  abbrev pub covers_slice : Snssai → SliceSettings → Bool
  covers_slice r s =
      (get r).sst == s.sst
      && (not (leb_ℤ sst_max_standardized_value (get r).sst && ((get r).sd_is_set || is_given s.sd))
          || (get r).sd == text_or_empty s.sd)

  -- An AMF covers all requested S-NSSAIs.
  abbrev pub offers : List Snssai → AmfSettings → Bool
  offers rs a = all (λ r. any (covers_slice r) a.slices) rs

  abbrev pub offering : List Snssai → List AmfSettings → List String
  offering rs amfs = map (λ a. a.nf_id) (filter (offers rs) amfs)

  -- The first AMF set with an AMF that covers all requested S-NSSAIs.
  abbrev pub granted_set : List Snssai → List AmfSetSettings → Option AmfSetSettings
  granted_set rs [] = none
  granted_set rs (s ∷ sets) =
      let rest = granted_set rs sets in if is_nil (offering rs s.amfs) then rest else some s

  abbrev sd_of : SnssaiAttributes → String
  sd_of a = if a.sd_is_set then a.sd else ""

  abbrev CoversAttributes : Snssai → SnssaiAttributes → Type 0
  CoversAttributes r a =
      ((get r).sst ≡ a.sst)
      × (sst_max_standardized_value ≤ℤ (get r).sst
          → ((get r).sd_is_set ≡ true) ⊎ (a.sd_is_set ≡ true)
          → (get r).sd ≡ sd_of a)

  covers_slice_iff :
      (r : Snssai) (s : SliceSettings)
      → (covers_slice r s ≡ true) ↔ CoversAttributes r (slice_attributes s)
  covers_slice_iff r s = by_sd s.sst s.sd
    where
      by_sd :
          (sst : ℤ) (sd : Option String)
          → let s' : SliceSettings = record { sst = sst; sd = sd } in
            (covers_slice r s' ≡ true) ↔ CoversAttributes r (slice_attributes s')
      by_sd sst none = ground (
        arith,
        int_beq_iff (get r).sst sst,
        eq_iff (get r).sd "",
        leb_ℤ_iff sst_max_standardized_value (get r).sst,
      )
      by_sd sst (some d) = ground (
        arith,
        int_beq_iff (get r).sst sst,
        eq_iff (get r).sd d,
        leb_ℤ_iff sst_max_standardized_value (get r).sst,
      )

  Any-map :
      {A B : Type 0} (P : B → Type 0) (f : A → B) (xs : List A)
      → Any P (map f xs) ↔ Any (λ x. P (f x)) xs
  Any-map P f [] = ((λ h. h), (λ h. h))
  Any-map P f (x ∷ xs) = ground (arith, Any-map P f xs)

  covered_iff :
      (r : Snssai) (es : List ExtSnssai) (slices : List SliceSettings)
      → map get_ext es ≡ map slice_attributes slices
      → (any (covers_slice r) slices ≡ true) ↔ Any (Covers m r) es
  covered_iff r es slices e =
      let (there, back) =
        any_iff {P = λ s. CoversAttributes r (slice_attributes s)} (covers_slice r)
          (covers_slice_iff r) slices in
      let (out, into) = Any-map (CoversAttributes r) slice_attributes slices in
      let (out', into') = Any-map (CoversAttributes r) get_ext es in
      (
        (λ h. out' (subst (Any (CoversAttributes r)) (sym e) (into (there h)))),
        (λ h. back (out (subst (Any (CoversAttributes r)) e (into' h)))),
      )

  Bool-ext : (a b : Bool) → (a ≡ true) ↔ (b ≡ true) → a ≡ b
  Bool-ext a b (f, g) = ground arith

  all_covered_iff :
      (rs : List Snssai) (es : List ExtSnssai) (slices : List SliceSettings)
      → map get_ext es ≡ map slice_attributes slices
      → (all (λ r. any (covers_slice r) slices) rs ≡ true) ↔ All (λ r. Any (Covers m r) es) rs
  all_covered_iff rs es slices e =
      all_iff (λ r. any (covers_slice r) slices) (λ r. covered_iff r es slices e) rs

  amf_serves-offers :
      (y : Yaml) (rs : List Snssai) (a : AmfSettings) (nf_id : String) (ds : List AvailabilityData)
      → HasAmfSettings m y a (nf_id, ds)
      → amf_serves m rs ds ≡ offers rs a
  amf_serves-offers y rs a nf_id ds (_, (d, e, (_, _, same))) =
      let (there, back) = amf_serves_iff m rs (d ∷ []) in
      let (out, into) = all_covered_iff rs (get_supported_snssai_list d) a.slices same in
      rw e (Bool-ext _ _ ((λ h. ground (arith, there h, into)), (λ h. back (inl (out h)))))

  serving-offering :
      (y : Yaml) (rs : List Snssai) (amfs : List AmfSettings)
      (list : List (String × List AvailabilityData))
      → All₂ (HasAmfSettings m y) amfs list
      → serving m rs list ≡ offering rs amfs
  serving-offering y rs [] [] all = refl
  serving-offering y rs [] (i ∷ list) all = absurd all
  serving-offering y rs (a ∷ amfs) [] all = absurd all
  serving-offering y rs (a ∷ amfs) ((i, ds) ∷ list) (first, all) = elim (Bool-cases (offers rs a)) [
    | inl e ↦
        rw (amf_serves-offers y rs a i ds first, e)
          (ap₂ ◌∷◌ first.0 (serving-offering y rs amfs list all))
    | inr e ↦ rw (amf_serves-offers y rs a i ds first, e) (serving-offering y rs amfs list all)
  ]

  -- If no AMF set of the configuration serves the request, the settings have none either.
  pub granted_set-none :
      (y : Yaml) (rs : List Snssai) (sets : List AmfSetSettings) (items : List (AmfInfo m))
      → All₂ (HasAmfSetSettings m y) sets items
      → All (λ s. serving m rs s.amf_list ≡ []) items
      → granted_set rs sets ≡ none
  granted_set-none y rs [] [] all no_one = refl
  granted_set-none y rs [] (i ∷ items) all no_one = absurd all
  granted_set-none y rs (s ∷ sets) [] all no_one = absurd all
  granted_set-none y rs (s ∷ sets) (i ∷ items) (first, all) (empty, no_one) =
      rw (sym (serving-offering y rs s.amfs i.amf_list first.3) ∙ empty)
        (granted_set-none y rs sets items all no_one)

  -- If the first that serves it is known, it is that of the settings.
  pub granted_set-some :
      (y : Yaml) (rs : List Snssai) (sets : List AmfSetSettings) (before : List (AmfInfo m))
      (set : AmfInfo m) (after : List (AmfInfo m))
      → All₂ (HasAmfSetSettings m y) sets (before ++ set ∷ after)
      → All (λ s. serving m rs s.amf_list ≡ []) before
      → serving m rs set.amf_list ≢ []
      → (s : AmfSetSettings) × (granted_set rs sets ≡ some s)
        × HasAmfSetSettings m y s set
        × (serving m rs set.amf_list ≡ offering rs s.amfs)
  granted_set-some y rs [] [] set after all no_one some_id = absurd all
  granted_set-some y rs [] (b ∷ before) set after all no_one some_id = absurd all
  granted_set-some y rs (s ∷ sets) [] set after (first, all) no_one some_id =
      let same = serving-offering y rs s.amfs set.amf_list first.3 in
      (s, not_nil (offering rs s.amfs) (λ e. some_id (same ∙ e)), first, same)
    where
      not_nil :
          (ids : List String)
          → ids ≢ []
          → (if is_nil ids then granted_set rs sets else some s) ≡ some s
      not_nil [] h = absurd (h refl)
      not_nil (i ∷ ids) h = refl
  granted_set-some y rs (s ∷ sets) (b ∷ before) set after (first, all) (empty, no_one) some_id =
      rw (sym (serving-offering y rs s.amfs b.amf_list first.3) ∙ empty)
        (granted_set-some y rs sets before set after all no_one some_id)
