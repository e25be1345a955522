-- ===== src/Selection/Handlers/Alike.antt =====
-- Registration requests that the handler cannot tell apart but by the slices they list.
use oai_cn5g_nssf.Base.{
  ℕ, String, ◌≡◌, refl, sym, ◌∙◌, ap, Bool, false, true, not, List, any, ◌&&◌, if◌then◌else◌, inl,
  inr,
}
use oai_cn5g_nssf.Model.{Model}
use oai_cn5g_nssf.Config.{NssfConfig}
use oai_cn5g_nssf.Selection.Plmn.{validate_rnssai_in_plmn, validate_rnssai_in_ta}
use oai_cn5g_nssf.Selection.Plmn.Split.{is_subscribed, Decides, validate_rnssai_in_plmn-Decides}
use oai_cn5g_nssf.Selection.AmfSets.Choice.{serving}
use oai_cn5g_nssf.Selection.AmfSets.Alike.{AmfView, amf_view, Same, get_valid_amfset-Same}
use oai_cn5g_nssf.Selection.Lookup.{validate_ta}
use oai_cn5g_nssf.Selection.Handlers.{
  Selected, is_empty, select_requested, handle_slice_info_for_registration,
}

-- What is seen of the end of a registration besides the lists of slices: the result, the status code
-- and the AMF set.
pub record Outcome : Type 0 where
  pub authorised : Bool
  pub http_code : ℕ
  pub amf : AmfView

module _ (m : Model) where
  open m use {
    location.{PlmnId, get_plmn, Tai, get_tac},
    AvailabilityData,
    RegistrationInfo,
    request_mapping_is_set,
    mapping_of_nssai_is_set,
    requested_nssai_is_set,
    get_requested_nssai,
    subscribed_nssai_is_set,
    get_subscribed_nssai,
  }

  unfoldable pub outcome : Selected m → Outcome
  outcome out = record {
    authorised = out.authorised;
    http_code = out.http_code;
    amf = amf_view m out.auth_slice_info;
  }

  -- Two requests of the same kind, both or neither with a subscribed S-NSSAI, that the same AMFs
  -- serve.
  pub record Alike (info info' : RegistrationInfo) : Type 0 where
    pub request_mapping : request_mapping_is_set info ≡ request_mapping_is_set info'
    pub mapping : mapping_of_nssai_is_set info ≡ mapping_of_nssai_is_set info'
    pub requested_is_set : requested_nssai_is_set info ≡ requested_nssai_is_set info'
    pub subscribed_is_set : subscribed_nssai_is_set info ≡ subscribed_nssai_is_set info'
    pub subscribes :
        any (is_subscribed m (get_subscribed_nssai info)) (get_requested_nssai info)
        ≡ any (is_subscribed m (get_subscribed_nssai info')) (get_requested_nssai info')
    pub served :
        (amfs : List (String × List AvailabilityData))
        → serving m (get_requested_nssai info) amfs ≡ serving m (get_requested_nssai info') amfs

  Decides-Same :
      (info info' : RegistrationInfo) (auth auth' : m.auth.Object) (out out' : Bool × m.auth.Object)
      → Alike info info'
      → amf_view m auth ≡ amf_view m auth'
      → Decides m info auth out
      → Decides m info' auth' out'
      → Same m out out'
  Decides-Same info info' auth auth' out out' a e d d' =
      (found d ∙ a.subscribes ∙ sym (found d'), kept d ∙ e ∙ sym (kept d'))
    where
      found :
          {i : RegistrationInfo} {x : m.auth.Object} {o : Bool × m.auth.Object}
          → Decides m i x o
          → o.0 ≡ any (is_subscribed m (get_subscribed_nssai i)) (get_requested_nssai i)
      found (inl (v, h, _)) = v ∙ sym h
      found (inr (_, v, h, _, _, _)) = v ∙ sym h

      kept :
          {i : RegistrationInfo} {x : m.auth.Object} {o : Bool × m.auth.Object}
          → Decides m i x o
          → amf_view m o.1 ≡ amf_view m x
      kept (inl (_, _, g)) = rw g refl
      kept (inr (_, _, _, g, _, _)) = rw g refl

  validate_rnssai_in_ta-Same :
      (info info' : RegistrationInfo) (auth auth' : m.auth.Object)
      → amf_view m auth ≡ amf_view m auth'
      → Same m (validate_rnssai_in_ta m info auth) (validate_rnssai_in_ta m info' auth')
  unfolding validate_rnssai_in_ta
  validate_rnssai_in_ta-Same info info' auth auth' e = (refl, e)

  -- A branch that both take in the same way.
  outcome_if :
      (b b' : Bool) (x x' y y' : Selected m)
      → b ≡ b'
      → outcome x ≡ outcome x'
      → outcome y ≡ outcome y'
      → outcome (if b then x else y) ≡ outcome (if b' then x' else y')
  outcome_if b b' x x' y y' e f g = rw e (by_case b')
    where
      by_case : (c : Bool) → outcome (if c then x else y) ≡ outcome (if c then x' else y')
      by_case true = f
      by_case false = g

  outcome_of :
      (authorised : Bool) (code : ℕ) (auth auth' : m.auth.Object)
      → amf_view m auth ≡ amf_view m auth'
      → outcome (record { authorised = authorised; http_code = code; auth_slice_info = auth })
        ≡ outcome (record { authorised = authorised; http_code = code; auth_slice_info = auth' })
  unfolding outcome
  outcome_of authorised code auth auth' e =
      ap (λ v. record { authorised = authorised; http_code = code; amf = v }) e

  module _ (cfg : NssfConfig m) (info info' : RegistrationInfo) (alike : Alike info info')
      (code : ℕ) (auth auth' : m.auth.Object) (e : amf_view m auth ≡ amf_view m auth') where
    validate_rnssai_in_plmn-Same :
        Same m (validate_rnssai_in_plmn m info auth) (validate_rnssai_in_plmn m info' auth')
    validate_rnssai_in_plmn-Same =
        Decides-Same info info' auth auth' _ _ alike e (validate_rnssai_in_plmn-Decides m info auth)
          (validate_rnssai_in_plmn-Decides m info' auth')

    select_requested-outcome :
        outcome (select_requested m cfg info code auth)
        ≡ outcome (select_requested m cfg info' code auth')
    unfolding select_requested
    select_requested-outcome =
        let (v, f) = validate_rnssai_in_plmn-Same in
        let (u, t) = validate_rnssai_in_ta-Same info info' _ _ f in
        let (w, g) =
          get_valid_amfset-Same m (get_requested_nssai info) (get_requested_nssai info')
            alike.served cfg _ _ t in
        outcome_if _ _ _ _ _ _ (rw (alike.requested_is_set, alike.subscribed_is_set) refl)
          (outcome_if _ _ _ _ _ _ (ap not v) (outcome_of false _ _ _ f) (
            outcome_if _ _ _ _ _ _ (ap not u) (outcome_of false _ _ _ t) (
              outcome_if _ _ _ _ _ _ (ap not w) (outcome_of false _ _ _ g)
                (outcome_of true _ _ _ g))))
          (outcome_of true code auth auth' e)

    pub handle_slice_info_for_registration-outcome :
        (tai : Tai) (home : PlmnId)
        → outcome (handle_slice_info_for_registration m cfg info tai home code auth)
          ≡ outcome (handle_slice_info_for_registration m cfg info' tai home code auth')
    unfolding handle_slice_info_for_registration
    handle_slice_info_for_registration-outcome tai home =
        let home_is_set = not (is_empty (get_plmn home).mcc) in
        let is_unknown = not (is_empty (get_tac tai)) && not (validate_ta m cfg tai) in
        let unavailable = m.status.service_unavailable in
        outcome_if _ _ _ _ _ _ alike.request_mapping (outcome_of false unavailable _ _ e) (
          outcome_if _ _ _ _ _ _ alike.mapping (outcome_of false unavailable _ _ e) (
            outcome_if home_is_set _ _ _ _ _ refl (outcome_of false unavailable _ _ e) (
              outcome_if is_unknown _ _ _ _ _ refl (outcome_of false code _ _ e)
                select_requested-outcome)))
