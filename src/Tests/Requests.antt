-- ===== src/Tests/Requests.antt =====
-- Registration requests over the configuration of the tests.
use oai_cn5g_nssf.Base.{◌≡◌, refl, sym, ap, ◌∙◌, false, some, [], ◌∷◌, arith}
use oai_cn5g_nssf.Tests.Concrete.{concrete, no_plmn, RegistrationAttributes}
use oai_cn5g_nssf.Tests.Selection.{
  config, ask, area, auth_init, granted, slice_222, slice_1, slice_1_bare,
}
use oai_cn5g_nssf.Selection.Handlers.{handle_slice_info_for_registration}
use oai_cn5g_nssf.Selection.Handlers.Bounds.{AllowsSome, NamesSome, registration_bounds}
use mathlib.Core.Quot
use oai_cn5g_nssf.Selection.Handlers.Alike.{Outcome, outcome}
use oai_cn5g_nssf.Selection.Handlers.Slices.{SameAsk, Ask, registration_of_slices}
use oai_cn5g_nssf.Selection.Handlers.Order.{SameRequest, order_irrelevant}

registration_bounds_example :
    let out = handle_slice_info_for_registration concrete config ask area no_plmn 0 auth_init in
    AllowsSome concrete ask out.auth_slice_info × NamesSome concrete config ask out.auth_slice_info
registration_bounds_example = registration_bounds concrete config ask area no_plmn auth_init granted

-- The request with its S-NSSAIs in another order, and one of them twice.
abbrev ask_again : RegistrationAttributes
ask_again = record {
  request_mapping = false;
  requested = some (slice_1 ∷ slice_222 ∷ slice_1 ∷ []);
  subscribed = some (slice_1_bare ∷ slice_222 ∷ []);
}

same_request : SameRequest concrete ask ask_again
same_request = record {
  request_mapping = refl;
  mapping = refl;
  requested_is_set = refl;
  subscribed_is_set = refl;
  requested = λ x. ground arith;
  subscribed = λ x. ground arith;
}

order_irrelevant_example :
    outcome concrete
      (handle_slice_info_for_registration concrete config ask area no_plmn 0 auth_init)
    ≡ outcome concrete
        (handle_slice_info_for_registration concrete config ask_again area no_plmn 0 auth_init)
order_irrelevant_example =
    order_irrelevant concrete config area no_plmn ask ask_again 0 auth_init same_request

-- The request with a slice of the standardized range named by its SST alone, twice.
abbrev ask_bare : RegistrationAttributes
ask_bare = record {
  request_mapping = false;
  requested = some (slice_1_bare ∷ slice_222 ∷ slice_1_bare ∷ []);
  subscribed = some (slice_1 ∷ slice_222 ∷ []);
}

same_ask : SameAsk concrete ask ask_bare
same_ask = record {
  request_mapping = refl;
  mapping = refl;
  requested_is_set = refl;
  subscribed_is_set = refl;
  requested = ground arith;
  subscribed = ground arith;
}

registration_of_slices_example :
    (decide : Ask concrete → Outcome) × ((info : RegistrationAttributes)
      → decide (Quot.mk info)
        ≡ outcome concrete
            (handle_slice_info_for_registration concrete config info area no_plmn 0 auth_init))
    × ((other : Ask concrete → Outcome)
        → ((info : RegistrationAttributes)
            → other (Quot.mk info)
              ≡ outcome concrete (
                  handle_slice_info_for_registration concrete config info area no_plmn 0 auth_init))
        → (ask : Ask concrete) → other ask ≡ decide ask)
registration_of_slices_example = registration_of_slices concrete config area no_plmn 0 auth_init

-- Both requests end in the same way.
bare_served :
    outcome concrete
      (handle_slice_info_for_registration concrete config ask area no_plmn 0 auth_init)
    ≡ outcome concrete
        (handle_slice_info_for_registration concrete config ask_bare area no_plmn 0 auth_init)
bare_served =
    let (decide, agrees, _) = registration_of_slices concrete config area no_plmn 0 auth_init in
    sym (agrees ask) ∙ ap decide (Quot.sound same_ask) ∙ agrees ask_bare
