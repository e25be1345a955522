-- ===== src/Program/Registration.antt =====
-- From the configuration file to the reply of the HTTP/2 server, however many requests it has handled
-- before: parsing, the callbacks, the application and slice selection together.
use oai_cn5g_nssf.Base.{◌≡◌, subst, sym, true, some, String, List, [], ◌∷◌, ◌++◌}
use oai_cn5g_nssf.Model.{Model}
use oai_cn5g_nssf.Config.{NssfConfig}
use oai_cn5g_nssf.Config.Yaml.{Yaml}
use oai_cn5g_nssf.Config.Parse.{returned}
use oai_cn5g_nssf.Config.Parse.Amf.{AmfSetSettings}
use oai_cn5g_nssf.Config.Parse.Whole.{Settings, DescribesAll}
use oai_cn5g_nssf.Config.Start.{
  BaseConfig, NssfConfigType, nssf_added, nssf_config_init, get_slice_config_path, from_yaml, init,
}
use oai_cn5g_nssf.Selection.AmfSets.Offer.{granted_set}
use oai_cn5g_nssf.Selection.Handlers.Registration.{Unsupported, IsComplete}
use oai_cn5g_nssf.Selection.Handlers.Codes.{SubscribesToSome}
use oai_cn5g_nssf.Selection.Handlers.Configured.{Within}
use oai_cn5g_nssf.Selection.Handlers.Assigned.{Assigns, configured_set_assigned}
use oai_cn5g_nssf.Server.{Sbi}
use oai_cn5g_nssf.Server.Action.{ok}
use oai_cn5g_nssf.Http2.Handlers.{Event, write_head, end_body, json_type}
use oai_cn5g_nssf.Http2.Routes.{on_slice_information}
use oai_cn5g_nssf.Http2.Routes.Registration.{AsksRegistration, granted_registration}
use oai_cn5g_nssf.Http2.Server.Session.{Reach, config_unchanged}

module _ (m : Model) (y : Yaml) (base : BaseConfig y) (sbi : Sbi m) where
  -- The server, under the configuration, answers the query with 200 and an answer that assigns the AMF
  -- set.
  abbrev pub Serves : NssfConfig m → String → m.RegistrationInfo → AmfSetSettings → Type 0
  Serves cfg qs info set =
      (auth : m.auth.Object) × Assigns m y info set auth
      × ((es : List Event)
          → on_slice_information m sbi cfg "GET" qs es ≡ (
            ok tt,
            es ++ write_head 200 (some json_type) ∷ end_body (some (sbi.dump_auth auth)) ∷ [],
          ))

  -- Suppose that the configuration file can be read, and that the file for the slice configuration that
  -- it names, or else the default one, describes an AMF set with an AMF that covers all S-NSSAIs of a
  -- complete and supported registration request, and the tracking area of the request, if it names one;
  -- that the UE subscribes to one of the S-NSSAIs; and that an AMF or an NSSF asks, with query parameters
  -- that can be parsed. Then the configuration is initialised, and after any requests that the HTTP/2
  -- server has handled it answers a GET of the request with 200 and, as JSON, the first such AMF set, with
  -- its AMFs that cover the request, and the S-NSSAIs that are subscribed to.
  pub configured_registration_served :
      (file : String) (nssf : NssfConfigType) (s : Settings)
      → base.init (from_yaml y base) file nssf_added ≡ some (true, nssf)
      → DescribesAll m y (get_slice_config_path nssf) s
      → (qs : String) (info : m.RegistrationInfo) (home : m.location.PlmnId) (tai : m.location.Tai)
        (set : AmfSetSettings)
      → AsksRegistration m sbi qs info home tai
      → ¬ Unsupported m info home
      → IsComplete m info
      → SubscribesToSome m info
      → Within m y tai s.ta_settings
      → granted_set m (m.get_requested_nssai info) s.amf_set_settings ≡ some set
      → (cfg : NssfConfig m) × (init y m base file (nssf_config_init m) ≡ returned true cfg)
        × ((now : NssfConfig m) → Reach m sbi cfg now → Serves now qs info set)
  unfolding init
  configured_registration_served file nssf s readable described qs info home tai set asks supported
        complete subscribes within granted =
      let (cfg, parsed, (good, assigns)) =
        configured_set_assigned m y (get_slice_config_path nssf) s described info tai home
          m.auth.init set supported complete subscribes within granted in
      (
        cfg,
        rw readable parsed,
        λ now reach.
            subst (λ c. Serves c qs info set) (sym (config_unchanged m sbi reach))
              (_, assigns, granted_registration m sbi cfg qs info home tai asks good),
      )
