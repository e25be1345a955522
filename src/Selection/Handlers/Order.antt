-- ===== src/Selection/Handlers/Order.antt =====
-- The order and the repetitions of the S-NSSAIs in a registration request play no part in whether it is
-- granted, nor in which AMF set is chosen.
use oai_cn5g_nssf.Base.{ℕ, ◌≡◌, refl, ◌∙◌, Bool, List, [], ◌∷◌, any, SameMembers, any-SameMembers}
use oai_cn5g_nssf.Model.{Model}
use oai_cn5g_nssf.Config.{NssfConfig}
use oai_cn5g_nssf.Selection.Compare.{compare_snssai}
use oai_cn5g_nssf.Selection.AmfSets.Order.{serving-SameMembers}
use oai_cn5g_nssf.Selection.Plmn.Split.{is_subscribed}
use oai_cn5g_nssf.Selection.Handlers.{handle_slice_info_for_registration}
use oai_cn5g_nssf.Selection.Handlers.Alike.{
  outcome, Alike, handle_slice_info_for_registration-outcome,
}

module _ (m : Model) where
  open m use {
    snssai.{Object as Snssai},
    nssai.{get_subscribed_snssai},
    location.{PlmnId, Tai},
    RegistrationInfo,
    request_mapping_is_set,
    mapping_of_nssai_is_set,
    requested_nssai_is_set,
    get_requested_nssai,
    subscribed_nssai_is_set,
    get_subscribed_nssai,
  }

  -- Two requests of the same kind, with the same requested and the same subscribed S-NSSAIs.
  pub record SameRequest (info info' : RegistrationInfo) : Type 0 where
    pub request_mapping : request_mapping_is_set info ≡ request_mapping_is_set info'
    pub mapping : mapping_of_nssai_is_set info ≡ mapping_of_nssai_is_set info'
    pub requested_is_set : requested_nssai_is_set info ≡ requested_nssai_is_set info'
    pub subscribed_is_set : subscribed_nssai_is_set info ≡ subscribed_nssai_is_set info'
    pub requested : SameMembers (get_requested_nssai info) (get_requested_nssai info')
    pub subscribed : SameMembers (get_subscribed_nssai info) (get_subscribed_nssai info')

  is_subscribed-SameMembers :
      (info info' : RegistrationInfo)
      → SameRequest info info'
      → (r : Snssai)
      → is_subscribed m (get_subscribed_nssai info) r
        ≡ is_subscribed m (get_subscribed_nssai info') r
  is_subscribed-SameMembers info info' same r =
      any-SameMembers (λ s. compare_snssai m r (get_subscribed_snssai s)) _ _ same.subscribed

  any_same :
      {A : Type 0} (p q : A → Bool) → ((a : A) → p a ≡ q a) → (xs : List A) → any p xs ≡ any q xs
  any_same p q h [] = refl
  any_same p q h (x ∷ xs) = rw (h x, any_same p q h xs) refl

  SameRequest-Alike : (info info' : RegistrationInfo) → SameRequest info info' → Alike m info info'
  SameRequest-Alike info info' same = record {
    request_mapping = same.request_mapping;
    mapping = same.mapping;
    requested_is_set = same.requested_is_set;
    subscribed_is_set = same.subscribed_is_set;
    subscribes =
        any_same _ _ (is_subscribed-SameMembers info info' same) (get_requested_nssai info)
        ∙ any-SameMembers (is_subscribed m (get_subscribed_nssai info')) _ _ same.requested;
    served = serving-SameMembers m _ _ same.requested;
  }

  -- Two registration requests of the same kind, with the same requested and the same subscribed
  -- S-NSSAIs in any order and with any repetitions, end with the same result, the same status code
  -- and the same AMF set, whatever the status code on entry.
  pub order_irrelevant :
      (cfg : NssfConfig m) (tai : Tai) (home : PlmnId) (info info' : RegistrationInfo) (code : ℕ)
      (auth : m.auth.Object)
      → SameRequest info info'
      → outcome m (handle_slice_info_for_registration m cfg info tai home code auth)
        ≡ outcome m (handle_slice_info_for_registration m cfg info' tai home code auth)
  order_irrelevant cfg tai home info info' code auth same =
      handle_slice_info_for_registration-outcome m cfg info info'
        (SameRequest-Alike info info' same) code auth auth refl tai home
