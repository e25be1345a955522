-- ===== src/Tests/Slices.antt =====
-- Requests for PDU sessions over a configuration that is read from a file.
use oai_cn5g_nssf.Base.{String, ◌≡◌, refl, inl, [], arith}
use oai_cn5g_nssf.Config.{NssfConfig}
use oai_cn5g_nssf.Config.Parse.WellFormed.{IsWellFormed, config_of}
use oai_cn5g_nssf.Config.Start.{nssf_config_init, init}
use oai_cn5g_nssf.Selection.Handlers.{handle_slice_info_for_pdu_session}
use oai_cn5g_nssf.Selection.Handlers.Sessions.{SameSession}
use oai_cn5g_nssf.Http1.Routes.{http_options}
use oai_cn5g_nssf.Http1.Routes.Sequence as Http1
use oai_cn5g_nssf.Http1.Routes.Setup as Setup
use oai_cn5g_nssf.Program.Slices.{ServerReach, sessions_of_slices}
use oai_cn5g_nssf.Tests.Concrete.{concrete, concrete_sbi, no_plmn, PduAttributes}
use oai_cn5g_nssf.Tests.Pistache.{concrete_pistache}
use oai_cn5g_nssf.Tests.Router.{concrete_router}
use oai_cn5g_nssf.Tests.Selection.{session, slice_1, area, auth_init}
use oai_cn5g_nssf.Tests.Document.{tree_yaml, tree_base}

-- The request with an SD, which plays no part for this SST.
abbrev session_with_sd : PduAttributes
session_with_sd = record { roaming_indication = 1; snssai = slice_1 }

abbrev initialised : NssfConfig concrete
initialised =
    config_of concrete (init tree_yaml concrete tree_base "nssf.yaml" (nssf_config_init concrete))

-- A request has come before.
abbrev path : String
path = "/nnssf-nssaiavailability/v1/nssai-availability"

abbrev reached :
    (now : NssfConfig concrete) × ServerReach concrete tree_yaml tree_base concrete_sbi
      concrete_pistache concrete_router initialised now
unfolding Setup.init
reached = (_, inl (Http1.later Http1.started (Http1.request http_options path "amf-9" _ [] refl)))

same_session : SameSession concrete session session_with_sd
same_session = record { roaming = refl; slice = ground arith }

sessions_of_slices_example :
    IsWellFormed concrete reached.0
    × (handle_slice_info_for_pdu_session concrete reached.0 session area no_plmn 0 auth_init
        ≡ handle_slice_info_for_pdu_session concrete reached.0 session_with_sd area no_plmn 0
            auth_init)
sessions_of_slices_example =
    sessions_of_slices concrete tree_yaml tree_base concrete_sbi concrete_pistache concrete_router
      "nssf.yaml" (nssf_config_init concrete) reached.0 session session_with_sd area no_plmn 0
      auth_init (tt, tt) reached.1 same_session
