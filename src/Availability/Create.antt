-- ===== src/Availability/Create.antt =====
-- Every way in which `handle_create_nssai_availability` can end, and what it fails to store.
use oai_cn5g_nssf.Base.{
  ℕ, String, ◌≡◌, refl, ◌≢◌, ◌⊎◌, inl, inr, Bool, false, true, List, [], ◌∷◌, Any, Bool-cases,
  arith, eq_iff, if◌then◌else◌, ◌==◌, string_equality,
}
use oai_cn5g_nssf.Model.{Model}
use oai_cn5g_nssf.Config.{AmfInfo, NssfConfig}
use oai_cn5g_nssf.Availability.{
  amf_info_init, search_amf_set, store, handle_create_nssai_availability,
}

module _ (m : Model) where
  open m use {
    AvailabilityInfo, amf_set_id_is_set, get_amf_set_id, get_supported_nssai_availability_data,
  }

  -- The configuration has an AMF set of the name.
  abbrev pub HasAmfSet : NssfConfig m → String → Type 0
  HasAmfSet cfg name = Any (λ set. set.target_amf_set ≡ name) cfg.amf_info_list

  -- The configuration lists the AMF in some AMF set.
  abbrev pub Lists : NssfConfig m → String → Type 0
  Lists cfg nf_id = Any (λ set. Any (λ amf. amf.0 ≡ nf_id) set.amf_list) cfg.amf_info_list

  -- The ways to end; `code` is the status code on entry.
  pub data Creates (cfg : NssfConfig m) (info : AvailabilityInfo) (code : ℕ) (created : Bool)
      (code' : ℕ) : Type 0 where
    no_set_id :
        amf_set_id_is_set info ≡ false
        → created ≡ false
        → code' ≡ m.status.service_unavailable
        → Creates cfg info code created code'
    empty_set_id :
        amf_set_id_is_set info ≡ true
        → get_amf_set_id info ≡ ""
        → created ≡ true
        → code' ≡ code
        → Creates cfg info code created code'
    unknown_set :
        amf_set_id_is_set info ≡ true
        → get_amf_set_id info ≢ ""
        → ¬ HasAmfSet cfg (get_amf_set_id info)
        → created ≡ false
        → code' ≡ m.status.service_unavailable
        → Creates cfg info code created code'
    known_set :
        amf_set_id_is_set info ≡ true
        → get_amf_set_id info ≢ ""
        → HasAmfSet cfg (get_amf_set_id info)
        → created ≡ true
        → code' ≡ m.status.no_content
        → Creates cfg info code created code'

  search_amf_set-Any :
      (name : String) (sets : List (AmfInfo m)) (start : AmfInfo m)
      → let found = (search_amf_set m name sets start).0 in
        ((found ≡ true) × Any (λ set. set.target_amf_set ≡ name) sets)
        ⊎ ((found ≡ false) × ¬ Any (λ set. set.target_amf_set ≡ name) sets)
  unfolding search_amf_set
  search_amf_set-Any name [] start = inr (refl, λ h. h)
  search_amf_set-Any name (set ∷ sets) start =
      ground (arith, eq_iff set.target_amf_set name, search_amf_set-Any name sets start)

  module _ (cfg : NssfConfig m) (nf_id : String) (info : AvailabilityInfo) (code : ℕ) where
    store_code :
        (set : AmfInfo m) (given : List m.AvailabilityData)
        → let out = store m cfg set nf_id given code in
          (out.created ≡ true) × (out.http_code ≡ m.status.no_content) × (out.nssf_cfg ≡ cfg)
    unfolding store
    store_code set given = ground arith

    in_set :
        (p : Bool × AmfInfo m)
        → amf_set_id_is_set info ≡ true
        → get_amf_set_id info ≢ ""
        → ((p.0 ≡ true) × HasAmfSet cfg (get_amf_set_id info))
          ⊎ ((p.0 ≡ false) × ¬ HasAmfSet cfg (get_amf_set_id info))
        → let out =
            if p.0
            then store m cfg p.1 nf_id (get_supported_nssai_availability_data info) code
            else record {
              created = false;
              http_code = m.status.service_unavailable;
              amf_info = amf_info_init m;
              nssf_cfg = cfg;
            } in
          Creates cfg info code out.created out.http_code
    in_set p e f (inl (found, has)) =
        let stored = store_code p.1 (get_supported_nssai_availability_data info) in
        rw found (known_set e f has stored.0 stored.1)
    in_set p e f (inr (missing, lacks)) = rw missing (unknown_set e f lacks refl refl)

    -- The handler ends in one of four ways: refused with 503 if the request has no name of an AMF set;
    -- accepted with the status code on entry if the name is empty; refused with 503 if no AMF set of the
    -- configuration has the name; and accepted with 204 if one has.
    pub handle_create_nssai_availability-Creates :
        let out = handle_create_nssai_availability m cfg nf_id info code in
        Creates cfg info code out.created out.http_code
    unfolding handle_create_nssai_availability
    handle_create_nssai_availability-Creates =
        let name = get_amf_set_id info in
        elim (Bool-cases (amf_set_id_is_set info)) [
          | inl e ↦ elim (Bool-cases (name == "")) [
            | inl f ↦ rw (e, f) (empty_set_id e ((eq_iff name "").0 f) refl refl)
            | inr f ↦
                rw (e, f)
                  (in_set _ e (λ same. ground (arith, (eq_iff name "").1 same))
                    (search_amf_set-Any name cfg.amf_info_list (amf_info_init m)))
          ]
          | inr e ↦ rw e (no_set_id e refl refl)
        ]

    pub nssf_cfg-handle_create_nssai_availability :
        (handle_create_nssai_availability m cfg nf_id info code).nssf_cfg ≡ cfg
    unfolding handle_create_nssai_availability
    nssf_cfg-handle_create_nssai_availability = ground arith

    -- For an AMF set of the configuration the availability of an AMF is accepted with 204, and an AMF
    -- that no AMF set listed before is listed in none afterwards: the handler writes to copies.
    pub create_accepts_and_forgets :
        amf_set_id_is_set info ≡ true
        → get_amf_set_id info ≢ ""
        → HasAmfSet cfg (get_amf_set_id info)
        → ¬ Lists cfg nf_id
        → let out = handle_create_nssai_availability m cfg nf_id info code in
          (out.created ≡ true)
          × (out.http_code ≡ m.status.no_content)
          × (¬ Lists out.nssf_cfg nf_id)
    create_accepts_and_forgets e f has lacks =
        let (created, code') = accepted handle_create_nssai_availability-Creates in
        (created, code', rw nssf_cfg-handle_create_nssai_availability lacks)
      where
        accepted :
            {b : Bool} {c : ℕ} → Creates cfg info code b c → (b ≡ true) × (c ≡ m.status.no_content)
        accepted (no_set_id g _ _) = absurd (cc)
        accepted (empty_set_id _ g _ _) = absurd (f g)
        accepted (unknown_set _ _ g _ _) = absurd (g has)
        accepted (known_set _ _ _ g h) = (g, h)
