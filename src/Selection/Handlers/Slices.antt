-- ===== src/Selection/Handlers/Slices.antt =====
-- A registration as a function on slices: requests that list S-NSSAIs of the same slices are one class.
use mathlib.Core.Quot
use mathlib.Core.Quot.{Quot}
use native.Mathlib.Nat.{ℕ_set}
use oai_cn5g_nssf.Base.{ℕ, ◌≡◌, refl, true, List, Within, any, any-Within, Bool-ext, String-IsSet}
use oai_cn5g_nssf.Model.{Model}
use oai_cn5g_nssf.Config.{NssfConfig}
use oai_cn5g_nssf.Selection.Compare.{compare_snssai}
use oai_cn5g_nssf.Selection.Compare.Key.{SameSlice, compare_snssai-SameSlice}
use oai_cn5g_nssf.Selection.AmfSets.Keys.{SameSlices, serving-SameSlices}
use oai_cn5g_nssf.Selection.Plmn.Split.{is_subscribed}
use oai_cn5g_nssf.Selection.Handlers.{handle_slice_info_for_registration}
use oai_cn5g_nssf.Selection.Handlers.Alike.{
  Outcome, outcome, Alike, handle_slice_info_for_registration-outcome,
}

module _ (m : Model) where
  open m use {
    snssai.{Object as Snssai},
    nssai.{SubscribedSnssai, get_subscribed_snssai},
    location.{PlmnId, Tai},
    RegistrationInfo,
    request_mapping_is_set,
    mapping_of_nssai_is_set,
    requested_nssai_is_set,
    get_requested_nssai,
    subscribed_nssai_is_set,
    get_subscribed_nssai,
  }

  abbrev pub SameSubscribed : SubscribedSnssai → SubscribedSnssai → Type 0
  SameSubscribed s s' = SameSlice m (get_subscribed_snssai s) (get_subscribed_snssai s')

  -- Two requests of the same kind, for the same slices and with the same slices subscribed to.
  pub record SameAsk (info info' : RegistrationInfo) : Type 0 where
    pub request_mapping : request_mapping_is_set info ≡ request_mapping_is_set info'
    pub mapping : mapping_of_nssai_is_set info ≡ mapping_of_nssai_is_set info'
    pub requested_is_set : requested_nssai_is_set info ≡ requested_nssai_is_set info'
    pub subscribed_is_set : subscribed_nssai_is_set info ≡ subscribed_nssai_is_set info'
    pub requested : SameSlices m (get_requested_nssai info) (get_requested_nssai info')
    pub subscribed :
        Within SameSubscribed (get_subscribed_nssai info) (get_subscribed_nssai info')
        × Within SameSubscribed (get_subscribed_nssai info') (get_subscribed_nssai info)

  still_subscribed :
      (rs rs' : List Snssai) (ss ss' : List SubscribedSnssai)
      → Within (SameSlice m) rs rs'
      → Within SameSubscribed ss ss'
      → any (is_subscribed m ss) rs ≡ true
      → any (is_subscribed m ss') rs' ≡ true
  still_subscribed rs rs' ss ss' near near' =
      any-Within (SameSlice m) (is_subscribed m ss) (is_subscribed m ss')
        (λ a b same.
          any-Within SameSubscribed (λ s. compare_snssai m a (get_subscribed_snssai s))
            (λ s. compare_snssai m b (get_subscribed_snssai s))
            (λ s s' same'. compare_snssai-SameSlice m a b _ _ same same') ss ss' near')
        rs rs' near

  SameAsk-Alike : (info info' : RegistrationInfo) → SameAsk info info' → Alike m info info'
  SameAsk-Alike info info' same = record {
    request_mapping = same.request_mapping;
    mapping = same.mapping;
    requested_is_set = same.requested_is_set;
    subscribed_is_set = same.subscribed_is_set;
    subscribes =
        let there = still_subscribed _ _ _ _ same.requested.0 same.subscribed.0 in
        let back = still_subscribed _ _ _ _ same.requested.1 same.subscribed.1 in
        Bool-ext _ _ there back;
    served = serving-SameSlices m _ _ same.requested;
  }

  -- The requests, where all that name the same slices are one.
  abbrev pub Ask : Type 0
  Ask = Quot SameAsk

  Outcome-IsSet : IsSet Outcome
  Outcome-IsSet = hlevel (ℕ_set, String-IsSet)

  -- The result, the status code and the AMF set of a registration are one function of the slices:
  -- exactly one function on the classes of requests gives what the handler ends with for each
  -- request. Two requests are in one class if they are of the same kind and the requested S-NSSAIs of
  -- the one, and those subscribed to, have the same keys as those of the other, in any order and with
  -- any repetitions, all with an empty SD where it is not set.
  pub registration_of_slices :
      (cfg : NssfConfig m) (tai : Tai) (home : PlmnId) (code : ℕ) (auth : m.auth.Object)
      → let ends = λ (info : RegistrationInfo).
        outcome m (handle_slice_info_for_registration m cfg info tai home code auth) in
        (decide : Ask → Outcome) × ((info : RegistrationInfo) → decide (Quot.mk info) ≡ ends info)
        × ((other : Ask → Outcome)
            → ((info : RegistrationInfo) → other (Quot.mk info) ≡ ends info)
            → (ask : Ask) → other ask ≡ decide ask)
  registration_of_slices cfg tai home code auth = (
    Quot.lift Outcome-IsSet
        (λ info. outcome m (handle_slice_info_for_registration m cfg info tai home code auth))
        (λ info info' same.
          handle_slice_info_for_registration-outcome m cfg info info'
            (SameAsk-Alike info info' same) code auth auth refl tai home),
    (λ info. refl),
    (λ other h. Quot.ind (λ ask. Outcome-IsSet _ _) h),
  )
