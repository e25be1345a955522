-- ===== src/Http1/Routes/Setup.antt =====
-- The functions `setupRoutes` of src/api-server/api, one per class, and `NSSFApiServer::init` of
-- src/api-server/nssf-api-server.cpp, each as the list of its calls of the
-- router. The objects are functions of the configuration, which their operations read.
use oai_cn5g_nssf.Base.{List, [], ◌∷◌, ◌++◌, append}
use oai_cn5g_nssf.Model.{Model}
use oai_cn5g_nssf.Config.{NssfConfig}
use oai_cn5g_nssf.Server.{Sbi}
use oai_cn5g_nssf.Http1.Pistache.{Pistache}
use oai_cn5g_nssf.Http1.Operations.{
  NetworkSliceInformationDocumentApi, NfInstanceIdDocumentApi, SubscriptionIdDocumentApi,
  SubscriptionsCollectionApi, NssaiAvailabilityStoreApi, NssfSliceConfigApi, NssfApis,
}
use oai_cn5g_nssf.Http1.Api.{
  n_s_selection_get_handler, n_ssai_availability_delete_handler, n_ssai_availability_patch_handler,
  n_ssai_availability_put_handler, n_ssai_availability_sub_modify_patch_handler,
  n_ssai_availability_unsubscribe_handler, n_ssai_availability_post_handler,
  n_ssai_availability_options_handler, nssf_slice_config_get_handler,
  nssf_slice_config_get_apis_handler,
}
use oai_cn5g_nssf.Http1.Routes.{
  http_get, http_put, http_post, http_patch, http_delete, http_options, Call, add_route,
  add_custom_handler, Handler, reading, availability_path,
  nf_instance_id_document_api_default_handler, subscription_id_document_api_default_handler,
  subscriptions_collection_api_default_handler, nssai_availability_store_api_default_handler,
  network_slice_information_document_api_default_handler,
}

module _ (m : Model) (sbi : Sbi m) (p : Pistache m) where
  abbrev Calls : Type 0
  Calls = List (Call (Handler m sbi p))

  unfoldable pub nf_instance_id_document : (NssfConfig m → NfInstanceIdDocumentApi m sbi p) → Calls
  nf_instance_id_document api =
      let path = availability_path m sbi p "/nssai-availability/:nfId" in
      add_route http_delete path
        (reading m sbi p (λ cfg. n_ssai_availability_delete_handler m sbi p (api cfg)))
      ∷ add_route http_patch path
          (reading m sbi p (λ cfg. n_ssai_availability_patch_handler m sbi p (api cfg)))
      ∷ add_route http_put path (λ cfg. n_ssai_availability_put_handler m sbi p (api cfg) cfg)
      ∷ add_custom_handler (nf_instance_id_document_api_default_handler m sbi p)
      ∷ []

  -- The second path is without the API version.
  unfoldable pub subscription_id_document :
      (NssfConfig m → SubscriptionIdDocumentApi m sbi p) → Calls
  subscription_id_document api =
      add_route http_patch (availability_path m sbi p sbi.subscription_id_path)
        (reading m sbi p (λ cfg. n_ssai_availability_sub_modify_patch_handler m sbi p (api cfg)))
      ∷ add_route http_delete (append sbi.availability_base sbi.subscription_id_path)
          (reading m sbi p (λ cfg. n_ssai_availability_unsubscribe_handler m sbi p (api cfg)))
      ∷ add_custom_handler (subscription_id_document_api_default_handler m sbi p)
      ∷ []

  unfoldable pub subscriptions_collection : (NssfConfig m → SubscriptionsCollectionApi m p) → Calls
  subscriptions_collection api =
      add_route http_post (availability_path m sbi p sbi.subscriptions_path)
        (reading m sbi p (λ cfg. n_ssai_availability_post_handler m sbi p (api cfg)))
      ∷ add_custom_handler (subscriptions_collection_api_default_handler m sbi p)
      ∷ []

  unfoldable pub nssai_availability_store : (NssfConfig m → NssaiAvailabilityStoreApi) → Calls
  nssai_availability_store api =
      add_route http_options (availability_path m sbi p "/nssai-availability")
        (reading m sbi p (λ cfg. n_ssai_availability_options_handler m sbi p (api cfg)))
      ∷ add_custom_handler (nssai_availability_store_api_default_handler m sbi p)
      ∷ []

  unfoldable pub network_slice_information_document :
      (NssfConfig m → NetworkSliceInformationDocumentApi m sbi p) → Calls
  network_slice_information_document api =
      let base = append sbi.ns_selection_base sbi.api_version in
      add_route http_get (append base sbi.network_slice_information_path)
        (reading m sbi p (λ cfg. n_s_selection_get_handler m sbi p (api cfg)))
      ∷ add_custom_handler (network_slice_information_document_api_default_handler m sbi p)
      ∷ []

  -- This class registers no default handler.
  unfoldable pub nssf_slice_config : (NssfConfig m → NssfSliceConfigApi) → Calls
  nssf_slice_config api =
      add_route http_get "/"
        (reading m sbi p (λ cfg. nssf_slice_config_get_apis_handler m sbi p (api cfg)))
      ∷ add_route http_get (append "/" "nnssf-slice-config")
          (reading m sbi p (λ cfg. nssf_slice_config_get_handler m sbi p (api cfg)))
      ∷ []

  -- `NSSFApiServer::init`, after the options of the endpoint.
  unfoldable pub init : (NssfConfig m → NssfApis m sbi p) → Calls
  unfolding nf_instance_id_document subscription_id_document subscriptions_collection
      nssai_availability_store network_slice_information_document nssf_slice_config
  init apis =
      nf_instance_id_document (λ cfg. (apis cfg).nf_instance_id_document)
      ++ subscription_id_document (λ cfg. (apis cfg).subscription_id_document)
      ++ subscriptions_collection (λ cfg. (apis cfg).subscriptions_collection)
      ++ nssai_availability_store (λ cfg. (apis cfg).nssai_availability_store)
      ++ network_slice_information_document (λ cfg. (apis cfg).network_slice_information_document)
      ++ nssf_slice_config (λ cfg. (apis cfg).nssf_slice_config)
