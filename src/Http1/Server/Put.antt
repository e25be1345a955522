-- ===== src/Http1/Server/Put.antt =====
-- From a request to the reply of the HTTP/1 server: the availability of an AMF.
use mathlib.Core.List.{append_assoc}
use oai_cn5g_nssf.Base.{ℕ, String, ◌≡◌, refl, some, List, [], ◌∷◌, ◌++◌, inl, inr}
use oai_cn5g_nssf.Model.{Model}
use oai_cn5g_nssf.Config.{NssfConfig}
use oai_cn5g_nssf.Availability
use oai_cn5g_nssf.Availability.Create.{
  handle_create_nssai_availability-Creates, nssf_cfg-handle_create_nssai_availability,
}
use oai_cn5g_nssf.Server.{Sbi}
use oai_cn5g_nssf.Server.Action.{Exception, Result-cases, Result, ok, thrown}
use oai_cn5g_nssf.Http2.Handlers.Availability.{TellsSet, Creates-TellsSet, not_ok, create_answer}
use oai_cn5g_nssf.Http1.Pistache.{
  Event, add_content_type, send_reply, Pistache, what, code_internal_server_error,
}
use oai_cn5g_nssf.Http1.Impl.{n_ssai_availability_put}
use oai_cn5g_nssf.Http1.Api.{handle_parsing_exception, validated, n_ssai_availability_put_handler}
use oai_cn5g_nssf.Http1.Server.{nssf_api_server}

module _ (m : Model) (sbi : Sbi m) (p : Pistache m) (cfg : NssfConfig m) (request : p.Request) where
  -- The body of the request, parsed and validated.
  abbrev pub availability_body : Result m.AvailabilityInfo
  availability_body = validated p.validate_availability (sbi.parse_availability (p.body request))

  -- The ways to answer the availability of an AMF, with what is sent.
  pub data PutReplies (sent : List Event) : Type 0 where
    -- the path has no ID
    no_id :
        (x : Exception)
        → p.param request ":nfId" ≡ thrown x
        → sent ≡ send_reply 500 (some (what x)) ∷ []
        → PutReplies sent
    -- the body cannot be parsed, or is not valid
    bad_body :
        (nf_id : String) (x : Exception)
        → p.param request ":nfId" ≡ ok nf_id
        → availability_body ≡ thrown x
        → (let (code, text) = handle_parsing_exception x in sent ≡ send_reply code (some text) ∷ [])
        → PutReplies sent
    -- the application has answered, and problem details are sent, in which no attribute is set
    answered :
        (nf_id : String) (info : m.AvailabilityInfo) (code : ℕ)
        → p.param request ":nfId" ≡ ok nf_id
        → availability_body ≡ ok info
        → TellsSet m cfg info code
        → sent
          ≡ add_content_type "application/problem+json"
            ∷ send_reply code (some (sbi.dump_problem m.problem.init))
            ∷ []
        → PutReplies sent

  put_reply :
      (nf_id : String) (info : m.AvailabilityInfo) (es : List Event)
      → (code : ℕ) × TellsSet m cfg info code
        × (n_ssai_availability_put m sbi p cfg nf_id info es ≡ (
          ok cfg,
          es
              ++ add_content_type "application/problem+json"
                ∷ send_reply code (some (sbi.dump_problem m.problem.init))
                ∷ [],
        ))
  unfolding n_ssai_availability_put
  put_reply nf_id info es =
      let out = Availability.handle_create_nssai_availability m cfg nf_id info 0 in
      let tells =
        Creates-TellsSet m cfg info _ _
          (handle_create_nssai_availability-Creates m cfg nf_id info 0) in
      (
        out.http_code,
        tells,
        rw (
          create_answer m cfg nf_id info,
          not_ok m cfg info out.http_code tells,
          nssf_cfg-handle_create_nssai_availability m cfg nf_id info 0,
          append_assoc,
        ),
      )

  -- The availability of an AMF is answered in one of three ways: 500 if the path has no ID; 400 if
  -- the body is not the JSON text of such data, or 500 if it fails in another way; otherwise with
  -- problem details, in which no attribute is set, and the status code that the application gives: 204 exactly if the request names an
  -- AMF set of the configuration, 0 exactly if the name that it gives is empty, 503 otherwise. The
  -- configuration stays as it was.
  pub put_handler-PutReplies :
      (es : List Event)
      → (sent : List Event) × (n_ssai_availability_put_handler m sbi p
            (nssf_api_server m sbi p cfg).nf_instance_id_document
            cfg
            request
            es
          ≡ (ok cfg, es ++ sent))
        × PutReplies sent
  unfolding n_ssai_availability_put_handler nssf_api_server
  put_handler-PutReplies es = elim (Result-cases (p.param request ":nfId")) [
    | inr (x, failed) ↦ (
      send_reply code_internal_server_error (some (what x)) ∷ [],
      rw failed refl,
      no_id x failed refl,
    )
    | inl (nf_id, e) ↦ elim (Result-cases availability_body) [
      | inr (x, bad) ↦ (
        (let (code, text) = handle_parsing_exception x in send_reply code (some text) ∷ []),
        rw (e, bad) refl,
        bad_body nf_id x e bad refl,
      )
      | inl (info, f) ↦
          let (code, tells, sends) = put_reply nf_id info es in
          (
            add_content_type "application/problem+json"
                ∷ send_reply code (some (sbi.dump_problem m.problem.init))
                ∷ [],
            rw (e, f, sends) refl,
            answered nf_id info code e f tells refl,
          )
    ]
  ]
