-- ===== src/Selection/Handlers/Registration.antt =====
-- Every way in which `handle_slice_info_for_registration` can end.
use oai_cn5g_nssf.Base.{
  ℕ, ◌≡◌, refl, ◌≢◌, ◌⊎◌, inl, inr, Bool, false, true, not, Bool-cases, String-cases, arith, eq_iff,
  if◌then◌else◌,
}
use oai_cn5g_nssf.Model.{Model}
use oai_cn5g_nssf.Config.{NssfConfig}
use oai_cn5g_nssf.Selection.AmfSets.Choice.{Chooses, get_valid_amfset-Chooses}
use oai_cn5g_nssf.Selection.Plmn.{validate_rnssai_in_ta}
use oai_cn5g_nssf.Selection.Plmn.Split.{Decides, validate_rnssai_in_plmn-Decides}
use oai_cn5g_nssf.Selection.Lookup.First.{UnknownTa, UnknownTa-cases, validate_ta_iff}
use oai_cn5g_nssf.Selection.Handlers.{
  Selected, select_requested, handle_slice_info_for_registration,
}

module _ (m : Model) where
  open m use {
    location.{PlmnId, get_plmn, Tai, get_tac},
    RegistrationInfo,
    request_mapping_is_set,
    mapping_of_nssai_is_set,
    requested_nssai_is_set,
    get_requested_nssai,
    subscribed_nssai_is_set,
  }

  -- The request is for a procedure that is not supported: mapping, handover or roaming.
  abbrev pub Unsupported : RegistrationInfo → PlmnId → Type 0
  Unsupported info home =
      (request_mapping_is_set info ≡ true)
      ⊎ (mapping_of_nssai_is_set info ≡ true)
      ⊎ ((get_plmn home).mcc ≢ "")

  -- The request gives both the requested and the subscribed S-NSSAIs.
  abbrev pub IsComplete : RegistrationInfo → Type 0
  IsComplete info = (requested_nssai_is_set info ≡ true) × (subscribed_nssai_is_set info ≡ true)

  -- The ways to end; `code` and `auth` are the status code and the answer on entry.
  pub data Registers (cfg : NssfConfig m) (info : RegistrationInfo) (tai : Tai) (home : PlmnId)
      (code : ℕ) (auth : m.auth.Object) (out : Selected m) : Type 0 where
    unsupported :
        Unsupported info home
        → out ≡ record {
          authorised = false;
          http_code = m.status.service_unavailable;
          auth_slice_info = auth;
        }
        → Registers cfg info tai home code auth out
    unknown_ta :
        ¬ Unsupported info home
        → UnknownTa m cfg tai
        → out ≡ record { authorised = false; http_code = code; auth_slice_info = auth }
        → Registers cfg info tai home code auth out
    incomplete :
        ¬ Unsupported info home
        → ¬ UnknownTa m cfg tai
        → ¬ IsComplete info
        → out ≡ record { authorised = true; http_code = code; auth_slice_info = auth }
        → Registers cfg info tai home code auth out
    not_in_plmn :
        ¬ Unsupported info home
        → ¬ UnknownTa m cfg tai
        → IsComplete info
        → Decides m info auth (false, out.auth_slice_info)
        → out.authorised ≡ false
        → out.http_code ≡ m.status.forbidden
        → Registers cfg info tai home code auth out
    no_amf_set :
        (in_plmn : m.auth.Object)
        → ¬ Unsupported info home
        → ¬ UnknownTa m cfg tai
        → IsComplete info
        → Decides m info auth (true, in_plmn)
        → Chooses m
            (get_requested_nssai info)
            cfg.amf_info_list
            in_plmn
            (false, out.auth_slice_info)
        → out.authorised ≡ false
        → out.http_code ≡ m.status.forbidden
        → Registers cfg info tai home code auth out
    authorised :
        (in_plmn : m.auth.Object)
        → ¬ Unsupported info home
        → ¬ UnknownTa m cfg tai
        → IsComplete info
        → Decides m info auth (true, in_plmn)
        → Chooses m (get_requested_nssai info) cfg.amf_info_list in_plmn (true, out.auth_slice_info)
        → out.authorised ≡ true
        → out.http_code ≡ m.status.ok_code
        → Registers cfg info tai home code auth out

  Unsupported-cases :
      (info : RegistrationInfo) (home : PlmnId) → Unsupported info home ⊎ (¬ Unsupported info home)
  Unsupported-cases info home = elim (Bool-cases (request_mapping_is_set info)) [
    | inl e ↦ inl (inl e)
    | inr e ↦ elim (Bool-cases (mapping_of_nssai_is_set info)) [
      | inl f ↦ inl (inr (inl f))
      | inr f ↦ elim (String-cases (get_plmn home).mcc "") [
        | inl g ↦ inr (ground arith)
        | inr g ↦ inl (inr (inr g))
      ]
    ]
  ]

  module _ (cfg : NssfConfig m) (info : RegistrationInfo) (tai : Tai) (home : PlmnId) (code : ℕ)
      (auth : m.auth.Object) where
    when-Unsupported :
        Unsupported info home
        → handle_slice_info_for_registration m cfg info tai home code auth ≡ record {
          authorised = false;
          http_code = m.status.service_unavailable;
          auth_slice_info = auth;
        }
    unfolding handle_slice_info_for_registration
    when-Unsupported h = ground (arith, eq_iff (get_plmn home).mcc "")

    when-UnknownTa :
        ¬ Unsupported info home
        → UnknownTa m cfg tai
        → handle_slice_info_for_registration m cfg info tai home code auth
          ≡ record { authorised = false; http_code = code; auth_slice_info = auth }
    unfolding handle_slice_info_for_registration
    when-UnknownTa h u =
        ground
          (arith, eq_iff (get_plmn home).mcc "", eq_iff (get_tac tai) "", validate_ta_iff m cfg tai)

    when_known :
        ¬ Unsupported info home
        → ¬ UnknownTa m cfg tai
        → handle_slice_info_for_registration m cfg info tai home code auth
          ≡ select_requested m cfg info code auth
    unfolding handle_slice_info_for_registration
    when_known h u =
        ground
          (arith, eq_iff (get_plmn home).mcc "", eq_iff (get_tac tai) "", validate_ta_iff m cfg tai)

    module _ (supported : ¬ Unsupported info home) (known : ¬ UnknownTa m cfg tai) where
      when_complete :
          IsComplete info
          → (p q : Bool × m.auth.Object) → Decides m info auth p
          → Chooses m (get_requested_nssai info) cfg.amf_info_list p.1 q
          → Registers cfg info tai home code auth (
              if not p.0
              then record {
                authorised = false;
                http_code = m.status.forbidden;
                auth_slice_info = p.1;
              }
              else if not q.0
              then record {
                authorised = false;
                http_code = m.status.forbidden;
                auth_slice_info = q.1;
              }
              else record {
                authorised = true;
                http_code = m.status.ok_code;
                auth_slice_info = q.1;
              })
      when_complete c (false, a) (g, b) d e = not_in_plmn supported known c d refl refl
      when_complete c (true, a) (false, b) d e = no_amf_set a supported known c d e refl refl
      when_complete c (true, a) (true, b) d e = authorised a supported known c d e refl refl

      select_requested-Registers :
          Registers cfg info tai home code auth (select_requested m cfg info code auth)
      unfolding select_requested validate_rnssai_in_ta
      select_requested-Registers = elim (Bool-cases (requested_nssai_is_set info)) [
        | inl e ↦ elim (Bool-cases (subscribed_nssai_is_set info)) [
          | inl f ↦
              rw (e, f)
                (when_complete (e, f) _ _ (validate_rnssai_in_plmn-Decides m info auth)
                  (get_valid_amfset-Chooses m cfg (get_requested_nssai info) _))
          | inr f ↦ rw (e, f) (incomplete supported known (λ c. cc c.1) refl)
        ]
        | inr e ↦ rw e (incomplete supported known (λ c. cc c.0) refl)
      ]

    -- The handler ends in one of six ways: refused with 503 if the procedure is unsupported; else refused
    -- if the tracking area is unknown, and else accepted if S-NSSAIs are lacking, both with the status
    -- code on entry; in these three ways the answer stays. Otherwise it ends with 403 and the requested
    -- S-NSSAIs as rejected ones, if none is subscribed to; with 403 and the allowed NSSAI, if no AMF set
    -- has an AMF that serves them; or with 200, the allowed NSSAI and the first AMF set that has one.
    pub handle_slice_info_for_registration-Registers :
        Registers cfg info tai home code auth
          (handle_slice_info_for_registration m cfg info tai home code auth)
    handle_slice_info_for_registration-Registers = elim (Unsupported-cases info home) [
      | inl u ↦ unsupported u (when-Unsupported u)
      | inr supported ↦ elim (UnknownTa-cases m cfg tai) [
        | inl t ↦ unknown_ta supported t (when-UnknownTa supported t)
        | inr known ↦ rw (when_known supported known) (select_requested-Registers supported known)
      ]
    ]
