-- ===== src/Program/Service.antt =====
-- From the configuration file to the reply of the HTTP/1 server: parsing, the router, the handler, the
-- operation and slice selection together.
use oai_cn5g_nssf.Base.{String, ◌≡◌, true, false, Option, some, List, [], ◌∷◌, ◌++◌, Any, append}
use oai_cn5g_nssf.Model.{Model}
use oai_cn5g_nssf.Config.{NssfConfig}
use oai_cn5g_nssf.Config.Yaml.{Yaml}
use oai_cn5g_nssf.Config.Parse.{returned}
use oai_cn5g_nssf.Config.Start.{
  BaseConfig, NssfConfigType, nssf_added, get_slice_config_path, from_yaml, init,
}
use oai_cn5g_nssf.Config.Parse.Whole.{Settings, DescribesAll}
use oai_cn5g_nssf.Selection.Handlers.PduSession.{Roams}
use oai_cn5g_nssf.Selection.Handlers.Configured.{Asks, Within, configured_slice_granted}
use oai_cn5g_nssf.App
use oai_cn5g_nssf.Server.{Sbi}
use oai_cn5g_nssf.Server.Action.{ok}
use oai_cn5g_nssf.Http1.Pistache.{Event, add_content_type, send_reply, Pistache}
use oai_cn5g_nssf.Http1.Impl.{value_or}
use oai_cn5g_nssf.Http1.Server.Selection.Session.{AsksSession, session_answer, granted_session}
use oai_cn5g_nssf.Http1.Routes.{http_get, Handler}
use oai_cn5g_nssf.Http1.Routes.Router.{Router}
use oai_cn5g_nssf.Http1.Routes.Sequence.{Reach, Reach-eq}
use oai_cn5g_nssf.Http1.Routes.Dispatch.{dispatch, selection_route}

module _ (m : Model) (y : Yaml) (base : BaseConfig y) (sbi : Sbi m) (p : Pistache m)
    (router : Router) where
  -- The path is that of slice selection, and of no other route for GET.
  abbrev pub IsSelectionPath : String → Type 0
  IsSelectionPath path =
      (router.matches
          (append (append sbi.ns_selection_base sbi.api_version) sbi.network_slice_information_path)
          path
        ≡ true)
      × (router.matches "/" path ≡ false)
      × (router.matches (append "/" "nnssf-slice-config") path ≡ false)

  -- Suppose that the configuration file can be read, and that the file for the slice configuration that
  -- it names, or else the default one, describes a slice instance for the slice that a request for a PDU
  -- session alone asks for, and the tracking area of the request, if it names one; that the UE does not
  -- roam; and that the query parameters can be converted, with an NF type among them. Then the
  -- configuration is initialised, and after any requests that the HTTP/1 server has handled it answers a
  -- GET of the request at the path of slice selection with 200 and the answer of the application as JSON,
  -- whatever was configured before.
  pub configured_session_served :
      (file : String) (nssf : NssfConfigType) (s : Settings) (before : NssfConfig m)
      → base.init (from_yaml y base) file nssf_added ≡ some (true, nssf)
      → DescribesAll m y (get_slice_config_path nssf) s
      → (path : String) (request : p.Request) (info : m.PduSessionInfo)
        (home : Option m.location.PlmnId) (tai : Option m.location.Tai)
      → IsSelectionPath path
      → AsksSession m sbi p request info home tai
      → Any (Asks m y info) s.nsi_settings
      → ¬ Roams m info (value_or m.location.plmn_id_init home)
      → Within m y (value_or m.location.tai_init tai) s.ta_settings
      → (cfg : NssfConfig m) × (h : Handler m sbi p) × (init y m base file before
          ≡ returned true cfg)
        × (dispatch m sbi p router http_get path ≡ some h)
        × ((later : NssfConfig m)
            → Reach m sbi p router cfg later
            → (es : List Event)
            → h later request es ≡ (
              ok later,
              es
                  ++ add_content_type "application/json"
                    ∷ send_reply 200 (
                        some (
                          sbi.dump_auth
                            (session_answer m sbi p cfg request info home tai).auth_slice_info))
                    ∷ [],
            ))
  unfolding App.handle_slice_info_for_pdu_session init
  configured_session_served file nssf s before readable described path request info home tai
        (here, not_list, not_config) asks for_slice stays within =
      let (cfg, parsed, granted) =
        configured_slice_granted m y (get_slice_config_path nssf) s before described info
          (value_or m.location.tai_init tai) (value_or m.location.plmn_id_init home) 0 m.auth.init
          for_slice stays within in
      (
        cfg,
        _,
        rw readable parsed,
        selection_route m sbi p router path here not_list not_config,
        (λ later reach es. rw (
          Reach-eq m sbi p router reach,
          granted_session m sbi p cfg request info home tai asks granted es,
        )),
      )
