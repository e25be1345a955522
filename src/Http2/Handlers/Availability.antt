-- ===== src/Http2/Handlers/Availability.antt =====
-- What the HTTP/2 server replies to the availability of an AMF.
use mathlib.Core.List.{append_assoc}
use oai_cn5g_nssf.Base.{
  ℕ, String, ◌≡◌, refl, ◌∙◌, ◌↔◌, ◌≢◌, ◌⊎◌, inl, inr, Bool, true, false, Option, none, some, List,
  [], ◌∷◌, ◌++◌, iff_yes, iff_no, arith, ◌==◌, nat_equality, if◌then◌else◌, Bool-cases,
}
use oai_cn5g_nssf.Model.{Model}
use oai_cn5g_nssf.Config.{NssfConfig}
use oai_cn5g_nssf.Availability
use oai_cn5g_nssf.Availability.Create.{
  HasAmfSet, Creates, handle_create_nssai_availability-Creates,
  nssf_cfg-handle_create_nssai_availability,
}
use oai_cn5g_nssf.App
use oai_cn5g_nssf.Server.{Sbi}
use oai_cn5g_nssf.Server.Action.{Action, ok, pure, ◌>>◌}
use oai_cn5g_nssf.Http2.Handlers.{
  Event, write_head, end_body, json_type, problem_type, send, create_nssai_availability_handler,
}

module _ (m : Model) where
  open m use {AvailabilityInfo, amf_set_id_is_set, get_amf_set_id}

  -- The request names an AMF set of the configuration.
  abbrev pub NamesKnown : NssfConfig m → AvailabilityInfo → Type 0
  NamesKnown cfg info =
      (amf_set_id_is_set info ≡ true)
      × (get_amf_set_id info ≢ "")
      × HasAmfSet m cfg (get_amf_set_id info)

  -- The request names an AMF set with an empty name.
  abbrev pub NamesEmpty : AvailabilityInfo → Type 0
  NamesEmpty info = (amf_set_id_is_set info ≡ true) × (get_amf_set_id info ≡ "")

  -- What a status code tells of the request.
  abbrev pub TellsSet : NssfConfig m → AvailabilityInfo → ℕ → Type 0
  TellsSet cfg info code =
      ((code ≡ 204) ↔ NamesKnown cfg info)
      × ((code ≡ 0) ↔ NamesEmpty info)
      × ((code ≡ 0) ⊎ (code ≡ 204) ⊎ (code ≡ 503))

  pub Creates-TellsSet :
      (cfg : NssfConfig m) (info : AvailabilityInfo) (created : Bool) (code : ℕ)
      → Creates m cfg info 0 created code
      → TellsSet cfg info code
  Creates-TellsSet cfg info created code (Creates.no_set_id e _ f) =
      let c = f ∙ m.status.is_503 in
      (iff_no (λ g. omega arith) (λ g. cc), iff_no (λ g. omega arith) (λ g. cc), inr (inr c))
  Creates-TellsSet cfg info created code (Creates.empty_set_id e n _ f) =
      (iff_no (λ g. omega arith) (λ g. g.1 n), iff_yes f (e, n), inl f)
  Creates-TellsSet cfg info created code (Creates.unknown_set e n lacks _ f) =
      let c = f ∙ m.status.is_503 in
      (
        iff_no (λ g. omega arith) (λ g. lacks g.2),
        iff_no (λ g. omega arith) (λ g. n g.1),
        inr (inr c),
      )
  Creates-TellsSet cfg info created code (Creates.known_set e n has _ f) =
      let c = f ∙ m.status.is_204 in
      (iff_yes c (e, n, has), iff_no (λ g. omega arith) (λ g. n g.1), inr (inl c))

  pub not_ok :
      (cfg : NssfConfig m) (info : AvailabilityInfo) (code : ℕ)
      → TellsSet cfg info code
      → (code == m.status.ok_code) ≡ false
  not_ok cfg info code tells = ground (arith, m.status.is_200, tells.2)

  -- The application passes on what availability answers, and describes no problem, since that never
  -- ends with 403.
  pub create_answer :
      (cfg : NssfConfig m) (nf_id : String) (info : AvailabilityInfo)
      → let out = Availability.handle_create_nssai_availability m cfg nf_id info 0 in
        App.handle_create_nssai_availability m cfg nf_id info 0 m.problem.init ≡ record {
          http_code = out.http_code;
          problem_details = m.problem.init;
          nssf_cfg = out.nssf_cfg;
        }
  unfolding App.handle_create_nssai_availability
  create_answer cfg nf_id info =
      let out = Availability.handle_create_nssai_availability m cfg nf_id info 0 in
      let tells =
        Creates-TellsSet cfg info _ _
          (handle_create_nssai_availability-Creates m cfg nf_id info 0) in
      let unrefused : (out.http_code == m.status.forbidden) ≡ false =
        ground (arith, m.status.is_403, tells.2) in
      elim (Bool-cases out.created) [ inl e ↦ rw e refl | inr e ↦ rw (e, unrefused) refl ]

  -- The action sends one reply, and returns the configuration.
  abbrev pub SendsAndKeeps :
      Action Event (NssfConfig m) → NssfConfig m → ℕ → Option String → Option String → Type 0
  SendsAndKeeps act cfg code content_type body =
      (es : List Event) → act es ≡ (ok cfg, es ++ write_head code content_type ∷ end_body body ∷ [])

  send-SendsAndKeeps :
      (cfg : NssfConfig m) (code : ℕ) (content_type body : Option String)
      → SendsAndKeeps (do send code content_type body; pure cfg) cfg code content_type body
  send-SendsAndKeeps cfg code content_type body es = rw append_assoc

  module _ (sbi : Sbi m) (cfg : NssfConfig m) (nf_id : String) (info : AvailabilityInfo) where
    by_code :
        (code : ℕ) (cfg' : NssfConfig m) (problem : String)
        → cfg' ≡ cfg
        → TellsSet cfg info code
        → (sent : ℕ) × (content_type : Option String) × (body : Option String) × SendsAndKeeps
            (if code == m.status.no_content
              then (do send code none none; pure cfg')
              else if code == m.status.ok_code
              then (do
                send code
                    (some json_type)
                    (some (sbi.dump_auth_availability m.auth_availability_init))
                pure cfg')
              else (do send code (some problem_type) (some problem); pure cfg'))
            cfg
            sent
            content_type
            body
          × TellsSet cfg info sent
          × (((sent ≡ 204) × (content_type ≡ none) × (body ≡ none))
              ⊎ ((sent ≢ 204) × (content_type ≡ some problem_type) × (body ≡ some problem)))
    by_code code cfg' problem e tells = elim (Bool-cases (code == m.status.no_content)) [
      | inl c ↦ (
        code,
        none,
        none,
        rw (e, c) (send-SendsAndKeeps cfg code none none),
        tells,
        inl (ground (arith, m.status.is_204), refl, refl),
      )
      | inr c ↦ (
        code,
        some problem_type,
        some problem,
        rw (e, c, not_ok cfg info code tells)
            (send-SendsAndKeeps cfg code (some problem_type) (some problem)),
        tells,
        inr ((λ same. ground (arith, m.status.is_204)), refl, refl),
      )
    ]

    -- The reply to the availability of an AMF: 204 with neither a content type nor a body exactly if the
    -- request names an AMF set of the configuration; the status code 0 exactly if the name that it
    -- gives is empty, and 503 otherwise, both with problem details in which no attribute is set. The
    -- configuration stays as it was.
    pub create_nssai_availability_reply :
        (sent : ℕ) × (content_type : Option String) × (body : Option String) × SendsAndKeeps
          (create_nssai_availability_handler m sbi cfg nf_id info)
          cfg
          sent
          content_type
          body
        × TellsSet cfg info sent
        × (((sent ≡ 204) × (content_type ≡ none) × (body ≡ none))
            ⊎ ((sent ≢ 204)
                × (content_type ≡ some problem_type)
                × (body ≡ some (sbi.dump_problem m.problem.init))))
    unfolding create_nssai_availability_handler
    create_nssai_availability_reply =
        let out = Availability.handle_create_nssai_availability m cfg nf_id info 0 in
        let tells =
          Creates-TellsSet cfg info _ _
            (handle_create_nssai_availability-Creates m cfg nf_id info 0) in
        rw (create_answer cfg nf_id info) (
          by_code out.http_code out.nssf_cfg (sbi.dump_problem m.problem.init)
            (nssf_cfg-handle_create_nssai_availability m cfg nf_id info 0) tells)
