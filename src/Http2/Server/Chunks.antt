-- ===== src/Http2/Server/Chunks.antt =====
-- Bodies that arrive in parts: the callback for NSSAI availability takes each part for a whole body.
use mathlib.Core.List.{append_assoc, append-nil}
use oai_cn5g_nssf.Base.{
  String, ◌≡◌, ◌≢◌, refl, sym, ap, true, false, ◌⊎◌, inl, inr, List, [], ◌∷◌, ◌++◌, All, arith,
  none, eq_iff, Bool-cases, string_equality, ltb, ◌<◌,
}
use oai_cn5g_nssf.Model.{Model}
use oai_cn5g_nssf.Config.{NssfConfig}
use oai_cn5g_nssf.Server.{Sbi}
use oai_cn5g_nssf.Server.Action.{Action, Result, json_error, ok, thrown}
use oai_cn5g_nssf.Selection.Handlers.{is_empty}
use oai_cn5g_nssf.Http2.Handlers.{Event, write_head, end_body, create_nssai_availability_handler}
use oai_cn5g_nssf.Http2.Handlers.Availability.{create_nssai_availability_reply}
use oai_cn5g_nssf.Http2.Routes.{last_part, on_nssai_availability}
use oai_cn5g_nssf.Http2.Server.{Request, Data, on_body}

module _ (m : Model) (sbi : Sbi m) (cfg : NssfConfig m) where
  abbrev pub availability_callback : NssfConfig m → Request → Data → Action Event (NssfConfig m)
  availability_callback c r chunk =
      on_nssai_availability m sbi c r.method r.path chunk.msg chunk.len

  -- The calls on the response for a text that is taken for a whole body.
  abbrev pub calls_of : String → Result m.AvailabilityInfo → List Event
  calls_of nf_id (ok info) = (create_nssai_availability_handler m sbi cfg nf_id info []).1
  calls_of nf_id (thrown x) = write_head m.status.bad_request none ∷ end_body none ∷ []

  abbrev pub calls_of_parts : String → List Data → List Event
  calls_of_parts nf_id [] = []
  calls_of_parts nf_id (chunk ∷ rest) =
      calls_of nf_id (sbi.parse_availability chunk.msg) ++ calls_of_parts nf_id rest

  -- A part has some text, which is parsed or is no JSON.
  abbrev pub IsPart : Data → Type 0
  IsPart chunk =
      (0 < chunk.len)
      × (((info : m.AvailabilityInfo) × (sbi.parse_availability chunk.msg ≡ ok info))
          ⊎ ((s : String) × (sbi.parse_availability chunk.msg ≡ thrown (json_error s))))

  create_reply :
      (nf_id : String) (info : m.AvailabilityInfo) (es : List Event)
      → create_nssai_availability_handler m sbi cfg nf_id info es
        ≡ (ok cfg, es ++ (create_nssai_availability_handler m sbi cfg nf_id info []).1)
  create_reply nf_id info es =
      let (code, content_type, body, sends, tells, kind) =
        create_nssai_availability_reply m sbi cfg nf_id info in
      rw (sends es, sends []) refl

  module _ (r : Request) (put : r.method ≡ "PUT")
      (named : last_part (sbi.split_path r.path) ≢ "") where
    is_named : is_empty (last_part (sbi.split_path r.path)) ≡ false
    is_named = elim (Bool-cases (is_empty (last_part (sbi.split_path r.path)))) [
      | inl e ↦ absurd (named ((eq_iff (last_part (sbi.split_path r.path)) "").0 e))
      | inr e ↦ e
    ]

    part_reply :
        (chunk : Data) (es : List Event)
        → IsPart chunk
        → availability_callback cfg r chunk es ≡ (
          ok cfg,
          es ++ calls_of (last_part (sbi.split_path r.path)) (sbi.parse_availability chunk.msg),
        )
    unfolding on_nssai_availability
    part_reply chunk es (some_text, inl (info, e)) =
        let long : ltb 0 chunk.len ≡ true = ground arith in
        rw (put, is_named, long, e, create_reply (last_part (sbi.split_path r.path)) info es) refl
    part_reply chunk es (some_text, inr (s, e)) =
        let long : ltb 0 chunk.len ≡ true = ground arith in
        rw (put, is_named, long, e, append_assoc) refl

    end_reply :
        (chunk : Data) (es : List Event)
        → chunk.len ≡ 0
        → availability_callback cfg r chunk es ≡ (ok cfg, es)
    unfolding on_nssai_availability
    end_reply chunk es e =
        let empty : ltb 0 chunk.len ≡ false = ground arith in rw (put, is_named, empty) refl

    -- The data of a PUT to an AMF, each part of which has some text that the JSON library parses or
    -- refuses with an exception of its own: for every part of the body, in its order, the callback makes
    -- the calls on the response that it would make for a whole body, and none at the end of the body.
    pub each_part_handled :
        (parts : List Data) (last : Data) (es : List Event)
        → All IsPart parts
        → last.len ≡ 0
        → on_body m sbi availability_callback cfg r (parts ++ last ∷ []) es
          ≡ (ok cfg, es ++ calls_of_parts (last_part (sbi.split_path r.path)) parts)
    unfolding on_body
    each_part_handled [] last es all e =
        rw (end_reply last es e) (ap (λ l. (ok cfg, l)) (sym (append-nil es)))
    each_part_handled (chunk ∷ parts) last es (first, all) e =
        rw (part_reply chunk es first, each_part_handled parts last _ all e) (rw append_assoc)
