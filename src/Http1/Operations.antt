-- ===== src/Http1/Operations.antt =====
-- The operations that the classes of src/api-server/api declare as pure virtual functions: an interface
-- that the generated handlers call and that the classes of src/api-server/impl fill.
use oai_cn5g_nssf.Base.{ℕ, String, Option, List}
use oai_cn5g_nssf.Model.{Model}
use oai_cn5g_nssf.Config.{NssfConfig}
use oai_cn5g_nssf.Server.{Sbi}
use oai_cn5g_nssf.Server.Action.{Exception, Action}
use oai_cn5g_nssf.Http1.Pistache.{Event, Pistache}

-- The virtual functions `handleParsingException` and `handleOperationException`, which a class may
-- override: the reply to an exception.
pub record Translators : Type 0 where
  pub handle_parsing_exception : Exception → ℕ × String
  pub handle_operation_exception : Exception → ℕ × String

pub record NetworkSliceInformationDocumentApi (m : Model) (sbi : Sbi m) (p : Pistache m)
    : Type 0 where
  pub exceptions : Translators
  -- the NF type and ID of the consumer, the three kinds of slice information, the home PLMN, the
  -- tracking area and the supported features
  pub n_s_selection_get :
      Option p.NfType
      → Option String
      → Option m.RegistrationInfo
      → Option m.PduSessionInfo
      → Option sbi.SliceInfoForUeCu
      → Option m.location.PlmnId
      → Option m.location.Tai
      → Option String
      → Action Event (Unit {0})

-- A header parameter is `Content-Encoding` or `Accept-Encoding`, in this order.
pub record NfInstanceIdDocumentApi (m : Model) (sbi : Sbi m) (p : Pistache m) : Type 0 where
  pub exceptions : Translators
  pub n_ssai_availability_delete : String → Action Event (Unit {0})
  pub n_ssai_availability_patch :
      String → List sbi.PatchItem → Option p.Header → Option p.Header → Action Event (Unit {0})
  -- it may write to the configuration, and so returns it
  pub n_ssai_availability_put :
      String → m.AvailabilityInfo → Option p.Header → Option p.Header → Action Event (NssfConfig m)

pub record SubscriptionIdDocumentApi (m : Model) (sbi : Sbi m) (p : Pistache m) : Type 0 where
  pub exceptions : Translators
  pub n_ssai_availability_sub_modify_patch :
      String → List sbi.PatchItem → Option p.Header → Action Event (Unit {0})
  pub n_ssai_availability_unsubscribe : String → Action Event (Unit {0})

pub record SubscriptionsCollectionApi (m : Model) (p : Pistache m) : Type 0 where
  pub exceptions : Translators
  pub n_ssai_availability_post : p.Subscription → Option p.Header → Action Event (Unit {0})

pub record NssaiAvailabilityStoreApi : Type 0 where
  pub exceptions : Translators
  pub n_ssai_availability_options : Action Event (Unit {0})

pub record NssfSliceConfigApi : Type 0 where
  pub exceptions : Translators
  pub nssf_slice_config_get_apis : Action Event (Unit {0})
  pub nssf_slice_config_get : Action Event (Unit {0})

-- The APIs that `NSSFApiServer` holds.
pub record NssfApis (m : Model) (sbi : Sbi m) (p : Pistache m) : Type 0 where
  pub nf_instance_id_document : NfInstanceIdDocumentApi m sbi p
  pub subscription_id_document : SubscriptionIdDocumentApi m sbi p
  pub subscriptions_collection : SubscriptionsCollectionApi m p
  pub nssai_availability_store : NssaiAvailabilityStoreApi
  pub network_slice_information_document : NetworkSliceInformationDocumentApi m sbi p
  pub nssf_slice_config : NssfSliceConfigApi
