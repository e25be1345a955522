-- ===== src/Http1/Routes.antt =====
-- The calls by which src/api-server/api registers routes with Pistache's router. Setup has the functions
-- that make them, and Router what the router does.
pub mod Setup
pub mod Router
pub mod Dispatch
pub mod Sequence
use oai_cn5g_nssf.Base.{String, append}
use oai_cn5g_nssf.Model.{Model}
use oai_cn5g_nssf.Config.{NssfConfig}
use oai_cn5g_nssf.Server.{Sbi}
use oai_cn5g_nssf.Server.Action.{Action}
use oai_cn5g_nssf.Http1.Pistache.{Event, Pistache}
use oai_cn5g_nssf.Http1.Api.{leaving, default_handler}

-- The methods that the routes use.
pub data Method : Type 0 where
  http_get : Method
  http_put : Method
  http_post : Method
  http_patch : Method
  http_delete : Method
  http_options : Method

-- A call of the router: `Routes::Get` and the like with a pattern, or `addCustomHandler`.
pub data Call (Handler : Type 0) : Type 0 where
  add_route : Method → String → Handler → Call Handler
  add_custom_handler : Handler → Call Handler

module _ (m : Model) (sbi : Sbi m) (p : Pistache m) where
  -- A handler that is bound to its object, as a function of the configuration, which is a global: it
  -- returns the configuration that it leaves.
  abbrev pub Handler : Type 0
  Handler = NssfConfig m → p.Request → Action Event (NssfConfig m)

  -- A handler that does not write to the configuration.
  abbrev pub reading : (NssfConfig m → p.Request → Action Event (Unit {0})) → Handler
  reading act cfg request = leaving cfg (act cfg request)

  -- `NFInstanceIDDocumentApi::base`, also that of the classes for subscriptions and for the store,
  -- with the API version of the configuration.
  abbrev pub availability_path : String → String
  availability_path path = append (append sbi.availability_base sbi.api_version) path

  abbrev pub nf_instance_id_document_api_default_handler : Handler
  nf_instance_id_document_api_default_handler = reading (λ cfg request. default_handler)

  abbrev pub subscription_id_document_api_default_handler : Handler
  subscription_id_document_api_default_handler = reading (λ cfg request. default_handler)

  abbrev pub subscriptions_collection_api_default_handler : Handler
  subscriptions_collection_api_default_handler = reading (λ cfg request. default_handler)

  abbrev pub nssai_availability_store_api_default_handler : Handler
  nssai_availability_store_api_default_handler = reading (λ cfg request. default_handler)

  abbrev pub network_slice_information_document_api_default_handler : Handler
  network_slice_information_document_api_default_handler = reading (λ cfg request. default_handler)
