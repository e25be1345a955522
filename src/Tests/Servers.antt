-- ===== src/Tests/Servers.antt =====
-- The HTTP servers over the configuration of the tests.
use oai_cn5g_nssf.Base.{ℕ, String, ◌≡◌, ◌≢◌, ◌⊎◌, refl, true, false, Option, none, some, []}
use oai_cn5g_nssf.Tests.Concrete.{concrete, concrete_sbi, no_plmn}
use oai_cn5g_nssf.Tests.Selection.{config, ask, session, area, new_amf}
use oai_cn5g_nssf.Selection.Handlers.Codes.{Tells}
use oai_cn5g_nssf.Selection.Handlers.SessionCodes.{TellsNsi}
use oai_cn5g_nssf.Server.Action.{ok, pure}
use oai_cn5g_nssf.Http2.Handlers.{
  json_type, problem_type, create_nssai_availability_handler, is_served, send,
  get_slice_info_for_registration_handler, get_slice_info_for_pdu_session_handler,
}
use oai_cn5g_nssf.Http2.Handlers.Replies.{Sends, registration_reply, pdu_session_reply}
use oai_cn5g_nssf.Http2.Handlers.Availability.{
  SendsAndKeeps, TellsSet, create_nssai_availability_reply,
}
use oai_cn5g_nssf.Http2.Routes.{get_slice_information, on_slice_information}
use oai_cn5g_nssf.Http2.Routes.Selection.{ue_cu_unreachable, unanswered}

registration_reply_example :
    (sent : ℕ) × (body : Option String) × Sends
      (get_slice_info_for_registration_handler concrete concrete_sbi config "AMF" ask area no_plmn)
      sent
      (some json_type)
      body
    × ((is_served "AMF" ≡ true) → Tells concrete config ask area no_plmn sent)
    × ((is_served "AMF" ≡ false) → (sent ≡ 400) × (body ≡ none))
    × ((sent ≡ 200) → body ≡ some "auth")
registration_reply_example = registration_reply concrete concrete_sbi config "AMF" ask area no_plmn

pdu_session_reply_example :
    (sent : ℕ) × (body : Option String) × Sends
      (get_slice_info_for_pdu_session_handler concrete concrete_sbi config "AMF" session area
        no_plmn)
      sent
      (some json_type)
      body
    × ((is_served "AMF" ≡ true) → TellsNsi concrete config session area no_plmn sent)
    × ((is_served "AMF" ≡ false) → (sent ≡ 400) × (body ≡ none))
    × ((sent ≡ 200) → body ≡ some "auth")
pdu_session_reply_example =
    pdu_session_reply concrete concrete_sbi config "AMF" session area no_plmn

ue_cu_unreachable_example :
    get_slice_information concrete concrete_sbi (λ t i a p. pure tt) config "nf-type=AMF"
    ≡ get_slice_information concrete concrete_sbi
        (λ t i a p. send 200 none none)
        config
        "nf-type=AMF"
ue_cu_unreachable_example =
    ue_cu_unreachable concrete concrete_sbi config (λ t i a p. pure tt)
      (λ t i a p. send 200 none none) "nf-type=AMF"

unanswered_example :
    on_slice_information concrete concrete_sbi config "GET" "nf-type=AMF" [] ≡ (ok tt, [])
unanswered_example =
    unanswered concrete concrete_sbi config "GET" "nf-type=AMF" [] refl refl refl refl

create_nssai_availability_reply_example :
    (sent : ℕ) × (content_type : Option String) × (body : Option String) × SendsAndKeeps concrete
      (create_nssai_availability_handler concrete concrete_sbi config "amf-9" new_amf)
      config
      sent
      content_type
      body
    × TellsSet concrete config new_amf sent
    × (((sent ≡ 204) × (content_type ≡ none) × (body ≡ none))
        ⊎ ((sent ≢ 204)
            × (content_type ≡ some problem_type)
            × (body ≡ some (concrete_sbi.dump_problem concrete.problem.init))))
create_nssai_availability_reply_example =
    create_nssai_availability_reply concrete concrete_sbi config "amf-9" new_amf
