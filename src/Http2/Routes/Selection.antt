-- ===== src/Http2/Routes/Selection.antt =====
-- Which handler a request for slice information reaches.
use oai_cn5g_nssf.Base.{String, ◌≡◌, List, Bool-cases, inl, inr, ◌==◌, string_equality}
use oai_cn5g_nssf.Model.{Model}
use oai_cn5g_nssf.Config.{NssfConfig}
use oai_cn5g_nssf.Server.{Sbi, home_plmn_id_param, tai_param}
use oai_cn5g_nssf.Server.Action.{Action, ok}
use oai_cn5g_nssf.Selection.Handlers.{is_empty}
use oai_cn5g_nssf.Http2.Handlers.{Event, get_slice_info_default_handler}
use oai_cn5g_nssf.Http2.Routes.{get_slice_information, on_slice_information}

module _ (m : Model) (sbi : Sbi m) (cfg : NssfConfig m) where
  -- The handler of UE configuration updates is never reached: its query parameter is read by the name
  -- of the registration request, so any two handlers in its place behave alike.
  pub ue_cu_unreachable :
      (h h' : String
        → sbi.SliceInfoForUeCu
        → m.location.Tai
        → m.location.PlmnId
        → Action Event (Unit {0}))
      (qs : String)
      → get_slice_information m sbi h cfg qs ≡ get_slice_information m sbi h' cfg qs
  unfolding get_slice_information
  ue_cu_unreachable h h' qs =
      elim (Bool-cases (is_empty (sbi.get_query_param qs sbi.registration_param))) [
        | inl e ↦ rw e
        | inr e ↦ rw e
      ]

  -- A request with none of the parameters that the server reads gets no reply.
  pub unanswered :
      (method qs : String) (es : List Event)
      → sbi.get_query_param qs sbi.registration_param ≡ ""
      → sbi.get_query_param qs sbi.pdu_session_param ≡ ""
      → sbi.get_query_param qs home_plmn_id_param ≡ ""
      → sbi.get_query_param qs tai_param ≡ ""
      → on_slice_information m sbi cfg method qs es ≡ (ok tt, es)
  unfolding on_slice_information get_slice_info_default_handler
  unanswered method qs es reg pdu home tai = elim (Bool-cases (method == "GET")) [
    | inl e ↦ rw (e, home, tai, reg, pdu)
    | inr e ↦ rw e
  ]
