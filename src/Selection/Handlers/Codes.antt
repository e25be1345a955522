-- ===== src/Selection/Handlers/Codes.antt =====
-- The status codes with which a registration ends, and exactly when.
use oai_cn5g_nssf.Base.{
  ℕ, ◌≡◌, ◌≢◌, ap, ◌∙◌, ◌↔◌, ◌⊎◌, inl, inr, false, true, [], any, Any, All-not-Any, Any-split,
  iff_yes, iff_no, arith,
}
use oai_cn5g_nssf.Model.{Model}
use oai_cn5g_nssf.Config.{NssfConfig, AmfInfo}
use oai_cn5g_nssf.Selection.AmfSets.Choice.{serving, Chooses}
use oai_cn5g_nssf.Selection.Plmn.Split.{is_subscribed, Decides}
use oai_cn5g_nssf.Selection.Lookup.First.{UnknownTa}
use oai_cn5g_nssf.Selection.Handlers.{Selected, handle_slice_info_for_registration}
use oai_cn5g_nssf.Selection.Handlers.Registration.{
  Unsupported, IsComplete, Registers, handle_slice_info_for_registration-Registers,
}

module _ (m : Model) where
  open m use {
    location.{PlmnId, Tai},
    RegistrationInfo,
    get_requested_nssai,
    get_subscribed_nssai,
    PduSessionInfo,
    get_snssai,
  }

  -- Some requested S-NSSAI is subscribed to.
  abbrev pub SubscribesToSome : RegistrationInfo → Type 0
  SubscribesToSome info =
      any (is_subscribed m (get_subscribed_nssai info)) (get_requested_nssai info) ≡ true

  -- Some AMF set has an AMF that can serve all requested S-NSSAIs.
  abbrev pub HasServingAmf : NssfConfig m → RegistrationInfo → Type 0
  HasServingAmf cfg info =
      Any (λ set. serving m (get_requested_nssai info) set.amf_list ≢ []) cfg.amf_info_list

  -- The registration request can be granted.
  abbrev pub IsGrantable : NssfConfig m → RegistrationInfo → Tai → PlmnId → Type 0
  IsGrantable cfg info tai home =
      (¬ Unsupported m info home)
      × (¬ UnknownTa m cfg tai)
      × IsComplete m info
      × SubscribesToSome info
      × HasServingAmf cfg info

  -- The handler says nothing about the request: its tracking area is unknown, or it lacks S-NSSAIs.
  abbrev pub IsUndecided : NssfConfig m → RegistrationInfo → Tai → PlmnId → Type 0
  IsUndecided cfg info tai home =
      (¬ Unsupported m info home) × (UnknownTa m cfg tai ⊎ (¬ IsComplete m info))

  -- What a status code of the registration handler tells of the request.
  abbrev pub Tells : NssfConfig m → RegistrationInfo → Tai → PlmnId → ℕ → Type 0
  Tells cfg info tai home code =
      ((code ≡ 200) ↔ IsGrantable cfg info tai home)
      × ((code ≡ 0) ↔ IsUndecided cfg info tai home)
      × ((code ≡ 503) ↔ Unsupported m info home)
      × ((code ≡ 0) ⊎ (code ≡ 200) ⊎ (code ≡ 403) ⊎ (code ≡ 503))

  pub Decides-any :
      {info : RegistrationInfo} {auth auth' : m.auth.Object}
      → Decides m info auth (true, auth')
      → SubscribesToSome info
  Decides-any (inl (f, _, _)) = absurd (cc)
  Decides-any (inr (_, _, h, _, _, _)) = h

  pub Decides-none :
      {info : RegistrationInfo} {auth auth' : m.auth.Object}
      → Decides m info auth (false, auth')
      → ¬ SubscribesToSome info
  Decides-none (inl (_, f, _)) h = cc
  Decides-none (inr (_, f, _, _, _, _)) h = cc

  module _ (cfg : NssfConfig m) (info : RegistrationInfo) where
    abbrev HasCandidate : AmfInfo m → Type 0
    HasCandidate set = serving m (get_requested_nssai info) set.amf_list ≢ []

    pub Chooses-Any :
        {auth auth' : m.auth.Object}
        → Chooses m (get_requested_nssai info) cfg.amf_info_list auth (true, auth')
        → HasServingAmf cfg info
    Chooses-Any (inl (f, _, _)) = absurd (cc)
    Chooses-Any (inr (before, set, after, split, _, some_id, _, _)) =
        rw split (Any-split HasCandidate before after some_id)

    pub Chooses-none :
        {auth auth' : m.auth.Object}
        → Chooses m (get_requested_nssai info) cfg.amf_info_list auth (false, auth')
        → ¬ HasServingAmf cfg info
    Chooses-none (inl (_, _, all)) h =
        All-not-Any HasCandidate (λ set. serving m (get_requested_nssai info) set.amf_list ≡ [])
          (λ set e f. f e) cfg.amf_info_list all h
    Chooses-none (inr (_, _, _, _, _, _, f, _)) h = cc

    module _ (tai : Tai) (home : PlmnId) (c : ℕ) where
      Tells-503 : c ≡ 503 → Unsupported m info home → Tells cfg info tai home c
      Tells-503 e u = (
        iff_no (λ f. omega arith) (λ g. g.0 u),
        iff_no (λ f. omega arith) (λ g. g.0 u),
        iff_yes e u,
        inr (inr (inr e)),
      )

      Tells-0 : c ≡ 0 → IsUndecided cfg info tai home → Tells cfg info tai home c
      Tells-0 e u = (
        iff_no (λ f. omega arith) (λ g. clash u.1 g.1 g.2),
        iff_yes e u,
        iff_no (λ f. omega arith) u.0,
        inl e,
      )
        where
          clash :
              UnknownTa m cfg tai ⊎ (¬ IsComplete m info)
              → ¬ UnknownTa m cfg tai
              → IsComplete m info
              → ⊥
          clash (inl u) known c = known u
          clash (inr u) known c = u c

      decided :
          (¬ Unsupported m info home)
          → (¬ UnknownTa m cfg tai)
          → IsComplete m info
          → (((c ≡ 403) × (¬ (SubscribesToSome info × HasServingAmf cfg info)))
              ⊎ ((c ≡ 200) × SubscribesToSome info × HasServingAmf cfg info))
          → (¬ IsUndecided cfg info tai home) × Tells cfg info tai home c
      decided supported known complete d = (not_undecided, pick not_undecided d)
        where
          not_undecided : ¬ IsUndecided cfg info tai home
          not_undecided (_, inl u) = known u
          not_undecided (_, inr u) = u complete

          pick :
              ¬ IsUndecided cfg info tai home
              → (((c ≡ 403) × (¬ (SubscribesToSome info × HasServingAmf cfg info)))
                  ⊎ ((c ≡ 200) × SubscribesToSome info × HasServingAmf cfg info))
              → Tells cfg info tai home c
          pick n (inl (e, lacks)) = (
            iff_no (λ f. omega arith) (λ g. lacks (g.3, g.4)),
            iff_no (λ f. omega arith) n,
            iff_no (λ f. omega arith) supported,
            inr (inr (inl e)),
          )
          pick n (inr (e, some_subscribed, serves)) = (
            iff_yes e (supported, known, complete, some_subscribed, serves),
            iff_no (λ f. omega arith) n,
            iff_no (λ f. omega arith) supported,
            inr (inl e),
          )

  pub code_of : (out out' : Selected m) → out ≡ out' → out.http_code ≡ out'.http_code
  code_of out out' e = ap (λ (o : Selected m). o.http_code) e

  -- What a status code tells of a request if the handler found `before` in it: nothing new if it says
  -- nothing about the request, and else as much as from 0.
  abbrev pub TellsFrom : ℕ → NssfConfig m → RegistrationInfo → Tai → PlmnId → ℕ → Type 0
  TellsFrom before cfg info tai home code =
      (IsUndecided cfg info tai home × (code ≡ before))
      ⊎ ((¬ IsUndecided cfg info tai home) × Tells cfg info tai home code)

  Registers-TellsFrom :
      (before : ℕ) (cfg : NssfConfig m) (info : RegistrationInfo) (tai : Tai) (home : PlmnId)
      (auth : m.auth.Object) (out : Selected m)
      → Registers m cfg info tai home before auth out
      → TellsFrom before cfg info tai home out.http_code
  Registers-TellsFrom before cfg info tai home auth out (Registers.unsupported u e) = inr (
    (λ h. h.0 u),
    Tells-503 cfg info tai home out.http_code (code_of out _ e ∙ m.status.is_503) u,
  )
  Registers-TellsFrom before cfg info tai home auth out (Registers.unknown_ta supported u e) =
      inl ((supported, inl u), code_of out _ e)
  Registers-TellsFrom before cfg info tai home auth out (Registers.incomplete supported known c e) =
      inl ((supported, inr c), code_of out _ e)
  Registers-TellsFrom before cfg info tai home auth out
        (Registers.not_in_plmn supported known c d _ e) =
      inr (
        decided cfg info tai home out.http_code supported known c
          (inl (e ∙ m.status.is_403, λ h. Decides-none d h.0)))
  Registers-TellsFrom before cfg info tai home auth out
        (Registers.no_amf_set _ supported known c d f _ e) =
      inr (
        decided cfg info tai home out.http_code supported known c
          (inl (e ∙ m.status.is_403, λ h. Chooses-none cfg info f h.1)))
  Registers-TellsFrom before cfg info tai home auth out
        (Registers.authorised _ supported known c d f _ e) =
      inr (
        decided cfg info tai home out.http_code supported known c
          (inr (e ∙ m.status.is_200, Decides-any d, Chooses-Any cfg info f)))

  -- From whatever status code, the handler leaves it if it says nothing about the request, and otherwise
  -- ends as it does from 0.
  pub handle_slice_info_for_registration-TellsFrom :
      (cfg : NssfConfig m) (info : RegistrationInfo) (tai : Tai) (home : PlmnId) (before : ℕ)
      (auth : m.auth.Object)
      → TellsFrom before cfg info tai home
          (handle_slice_info_for_registration m cfg info tai home before auth).http_code
  handle_slice_info_for_registration-TellsFrom cfg info tai home before auth =
      Registers-TellsFrom before cfg info tai home auth _
        (handle_slice_info_for_registration-Registers m cfg info tai home before auth)

  -- From a status code of 0 the registration handler ends with 200 exactly if the request can be
  -- granted, with 503 exactly if it is for an unsupported procedure, with 0 exactly if it is neither
  -- and names an unknown tracking area or lacks S-NSSAIs, and with 403 otherwise.
  pub handle_slice_info_for_registration-Tells :
      (cfg : NssfConfig m) (info : RegistrationInfo) (tai : Tai) (home : PlmnId)
      (auth : m.auth.Object)
      → Tells cfg info tai home
          (handle_slice_info_for_registration m cfg info tai home 0 auth).http_code
  handle_slice_info_for_registration-Tells cfg info tai home auth =
      elim (handle_slice_info_for_registration-TellsFrom cfg info tai home 0 auth) [
        | inl (u, e) ↦ Tells-0 cfg info tai home _ e u
        | inr (_, tells) ↦ tells
      ]
