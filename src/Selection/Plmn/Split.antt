-- ===== src/Selection/Plmn/Split.antt =====
-- What `validate_rnssai_in_plmn` does with the requested S-NSSAIs.
use oai_cn5g_nssf.Base.{
  ◌≡◌, refl, ap₂, ◌⊎◌, inl, inr, Bool, false, true, not, ◌||◌, List, [], ◌∷◌, ◌++◌, map, filter,
  any, some, Bool-cases, length-filter-not, if◌then◌else◌, arith,
}
use mathlib.Core.List.{append_assoc, append-nil}
use oai_cn5g_nssf.Model.{Model, get-fresh, SnssaiAttributes}
use oai_cn5g_nssf.Selection.Compare.{compare_snssai}
use oai_cn5g_nssf.Selection.Plmn.{
  to_allowed, set_allowed_nssai, match_subscribed, split_requested, validate_rnssai_in_plmn,
}

module _ (m : Model) where
  open m use {
    snssai.{Object as Snssai, get},
    nssai.{
      SubscribedSnssai, get_subscribed_snssai, AllowedSnssai, get_allowed_snssai, get_access_type,
      get_allowed_snssai_list, set_3gpp_access, access_type_init,
    },
    RegistrationInfo,
    get_requested_nssai,
    get_subscribed_nssai,
  }

  -- A requested S-NSSAI is subscribed to.
  abbrev pub is_subscribed : List SubscribedSnssai → Snssai → Bool
  is_subscribed ss r = any (λ s. compare_snssai m r (get_subscribed_snssai s)) ss

  -- An S-NSSAI as the answer shows it: an SD that is not set is left empty.
  abbrev pub shown : Snssai → SnssaiAttributes
  shown s = record {
    sst = (get s).sst;
    sd = if (get s).sd_is_set then (get s).sd else "";
    sd_is_set = (get s).sd_is_set;
  }

  -- No requested S-NSSAI is subscribed to, and all are reported as rejected; or some are, and the
  -- allowed NSSAI, for 3GPP access, lists those in order, while nothing is reported as rejected.
  abbrev pub Decides : RegistrationInfo → m.auth.Object → Bool × m.auth.Object → Type 0
  Decides info auth (valid, auth') =
      let rs = get_requested_nssai info in
      let hit = is_subscribed (get_subscribed_nssai info) in
      ((valid ≡ false)
        × (any hit rs ≡ false)
        × (m.auth.get auth' ≡ record (m.auth.get auth) { rejected_nssai_in_plmn = some rs }))
      ⊎ ((allowed : m.nssai.AllowedNssai) × (valid ≡ true)
          × (any hit rs ≡ true)
          × (m.auth.get auth'
              ≡ record (m.auth.get auth) { allowed_nssai_list = some (allowed ∷ []) })
          × (get_access_type allowed ≡ set_3gpp_access access_type_init)
          × (map (λ a. get (get_allowed_snssai a)) (get_allowed_snssai_list allowed)
              ≡ map shown (filter hit rs)))

  match_subscribed-any :
      (r : Snssai) (ss : List SubscribedSnssai) (matched : Bool)
      → match_subscribed m r ss matched ≡ is_subscribed ss r || matched
  unfolding match_subscribed
  match_subscribed-any r [] matched = refl
  match_subscribed-any r (s ∷ ss) matched =
      ground (arith, match_subscribed-any r ss matched, match_subscribed-any r ss true)

  match_subscribed_start :
      (r : Snssai) (ss : List SubscribedSnssai) → match_subscribed m r ss false ≡ is_subscribed ss r
  match_subscribed_start r ss = ground (arith, match_subscribed-any r ss false)

  split_requested-filter :
      (ss : List SubscribedSnssai) (rs rejected matched : List Snssai)
      → split_requested m ss rs rejected matched ≡ (
        rejected ++ filter (λ r. not (is_subscribed ss r)) rs,
        matched ++ filter (is_subscribed ss) rs,
      )
  unfolding split_requested
  split_requested-filter ss [] rejected matched = rw (append-nil, append-nil)
  split_requested-filter ss (r ∷ rs) rejected matched = elim (Bool-cases (is_subscribed ss r)) [
    | inl e ↦
        rw (match_subscribed_start r ss, e)
          (rw (split_requested-filter ss rs rejected (matched ++ r ∷ []))
            (rw (append_assoc matched)))
    | inr e ↦
        rw (match_subscribed_start r ss, e)
          (rw (split_requested-filter ss rs (rejected ++ r ∷ []) matched)
            (rw (append_assoc rejected)))
  ]

  get-to_allowed : (s : Snssai) → get (get_allowed_snssai (to_allowed m s)) ≡ shown s
  unfolding to_allowed
  get-to_allowed s =
      rw m.nssai.get-set_allowed_snssai
        (get-fresh m.snssai (get s).sst (get s).sd_is_set (get s).sd)

  map-get-to_allowed :
      (ss : List Snssai)
      → map (λ a. get (get_allowed_snssai a)) (map (to_allowed m) ss) ≡ map shown ss
  map-get-to_allowed [] = refl
  map-get-to_allowed (s ∷ ss) = ap₂ ◌∷◌ (get-to_allowed s) (map-get-to_allowed ss)

  set_allowed_nssai_valid :
      (info : RegistrationInfo) (auth : m.auth.Object)
      → let rs = get_requested_nssai info in
        let hit = is_subscribed (get_subscribed_nssai info) in
        any hit rs ≡ true → Decides info auth (true, set_allowed_nssai m (filter hit rs) auth)
  unfolding set_allowed_nssai
  set_allowed_nssai_valid info auth h = inr (
    _,
    refl,
    h,
    m.auth.get-set_allowed_nssai_list auth _,
    rw m.nssai.get_access_type-set_allowed_snssai_list (m.nssai.get-set_access_type _ _),
    rw m.nssai.get-set_allowed_snssai_list (map-get-to_allowed _),
  )

  by_any :
      (info : RegistrationInfo) (auth : m.auth.Object) (b : Bool)
      → let rs = get_requested_nssai info in
        let hit = is_subscribed (get_subscribed_nssai info) in
        any hit rs ≡ b
        → Decides info auth (
            if not b
            then (false, m.auth.set_rejected_nssai_in_plmn auth rs)
            else (true, set_allowed_nssai m (filter hit rs) auth))
  by_any info auth true h = set_allowed_nssai_valid info auth h
  by_any info auth false h = inl (refl, h, m.auth.get-set_rejected_nssai_in_plmn auth _)

  -- The request is valid in the PLMN exactly if some requested S-NSSAI is subscribed to; then the
  -- allowed NSSAI holds those that are, and otherwise all requested ones are reported as rejected.
  pub validate_rnssai_in_plmn-Decides :
      (info : RegistrationInfo) (auth : m.auth.Object)
      → Decides info auth (validate_rnssai_in_plmn m info auth)
  unfolding validate_rnssai_in_plmn
  validate_rnssai_in_plmn-Decides info auth =
      let rs = get_requested_nssai info in
      let hit = is_subscribed (get_subscribed_nssai info) in
      rw (split_requested-filter (get_subscribed_nssai info) rs [] [], length-filter-not hit rs)
        (by_any info auth (any hit rs) refl)
