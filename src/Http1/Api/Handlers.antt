-- ===== src/Http1/Api/Handlers.antt =====
-- The generated handlers, each of which answers every request once if the operations do.
use oai_cn5g_nssf.Base.{String, Option, none, some, List}
use oai_cn5g_nssf.Model.{Model}
use oai_cn5g_nssf.Config.{NssfConfig}
use oai_cn5g_nssf.Server.{Sbi}
use oai_cn5g_nssf.Http1.Pistache.{Pistache}
use oai_cn5g_nssf.Http1.Operations.{NssfApis}
use oai_cn5g_nssf.Http1.Api.{
  validated, always, default_handler, after_ue_cu, n_s_selection_get_handler,
  n_ssai_availability_delete_handler, n_ssai_availability_patch_handler,
  n_ssai_availability_put_handler, n_ssai_availability_sub_modify_patch_handler,
  n_ssai_availability_unsubscribe_handler, n_ssai_availability_post_handler,
  n_ssai_availability_options_handler, nssf_slice_config_get_handler,
  nssf_slice_config_get_apis_handler,
}
use oai_cn5g_nssf.Http1.Api.Once.{
  RepliesOnce, RepliesOrThrows, RepliesOrThrowsHttp, replies, send-RepliesOnce,
  lift-RepliesOrThrows, query_value-RepliesOrThrows, with_body-RepliesOrThrows,
  operation-RepliesOrThrows, handler-RepliesOnce, catch_http-RepliesOnce,
}

pub default_handler-RepliesOnce : RepliesOnce tt default_handler
unfolding default_handler
default_handler-RepliesOnce = send-RepliesOnce _ _

module _ (m : Model) (sbi : Sbi m) (p : Pistache m) where
  open p use {Header}

  -- The contract of the operations: each replies once, or throws before it has sent anything; those
  -- of the slice configuration throw nothing but an `HttpError`; and the one that may write to the
  -- configuration leaves it as it was.
  pub record Answers (cfg : NssfConfig m) (apis : NssfApis m sbi p) : Type 0 where
    pub delete :
        (nf_id : String)
        → RepliesOrThrows tt (apis.nf_instance_id_document.n_ssai_availability_delete nf_id)
    pub patch :
        (nf_id : String) (items : List sbi.PatchItem) (ce ae : Option Header)
        → RepliesOrThrows tt
            (apis.nf_instance_id_document.n_ssai_availability_patch nf_id items ce ae)
    pub put :
        (nf_id : String) (info : m.AvailabilityInfo) (ce ae : Option Header)
        → RepliesOrThrows cfg
            (apis.nf_instance_id_document.n_ssai_availability_put nf_id info ce ae)
    pub sub_modify_patch :
        (id : String) (items : List sbi.PatchItem) (ce : Option Header)
        → RepliesOrThrows tt
            (apis.subscription_id_document.n_ssai_availability_sub_modify_patch id items ce)
    pub unsubscribe :
        (id : String)
        → RepliesOrThrows tt (apis.subscription_id_document.n_ssai_availability_unsubscribe id)
    pub post :
        (subscription : p.Subscription) (ce : Option Header)
        → RepliesOrThrows tt
            (apis.subscriptions_collection.n_ssai_availability_post subscription ce)
    pub options : RepliesOrThrows tt apis.nssai_availability_store.n_ssai_availability_options
    pub selection :
        (nf_type : Option p.NfType) (nf_id : Option String) (reg : Option m.RegistrationInfo)
        (pdu : Option m.PduSessionInfo) (ue_cu : Option sbi.SliceInfoForUeCu)
        (home : Option m.location.PlmnId) (tai : Option m.location.Tai) (features : Option String)
        → RepliesOrThrows tt (
            apis.network_slice_information_document.n_s_selection_get nf_type nf_id reg pdu ue_cu
              home tai features)
    pub slice_config : RepliesOrThrowsHttp apis.nssf_slice_config.nssf_slice_config_get
    pub api_list : RepliesOrThrowsHttp apis.nssf_slice_config.nssf_slice_config_get_apis

  -- Each of the ten handlers, and the default handler, replies once to the request; that of PUT leaves
  -- the configuration as it was.
  abbrev pub AllReply : NssfConfig m → NssfApis m sbi p → p.Request → Type 0
  AllReply cfg apis request =
      RepliesOnce tt
        (n_s_selection_get_handler m sbi p apis.network_slice_information_document request)
      × RepliesOnce cfg
          (n_ssai_availability_put_handler m sbi p apis.nf_instance_id_document cfg request)
      × RepliesOnce tt
          (n_ssai_availability_delete_handler m sbi p apis.nf_instance_id_document request)
      × RepliesOnce tt
          (n_ssai_availability_patch_handler m sbi p apis.nf_instance_id_document request)
      × RepliesOnce tt (
          n_ssai_availability_sub_modify_patch_handler m sbi p apis.subscription_id_document
            request)
      × RepliesOnce tt
          (n_ssai_availability_unsubscribe_handler m sbi p apis.subscription_id_document request)
      × RepliesOnce tt
          (n_ssai_availability_post_handler m sbi p apis.subscriptions_collection request)
      × RepliesOnce tt
          (n_ssai_availability_options_handler m sbi p apis.nssai_availability_store request)
      × RepliesOnce tt (nssf_slice_config_get_handler m sbi p apis.nssf_slice_config request)
      × RepliesOnce tt (nssf_slice_config_get_apis_handler m sbi p apis.nssf_slice_config request)
      × RepliesOnce tt default_handler

  module _ (cfg : NssfConfig m) (apis : NssfApis m sbi p) (answers : Answers cfg apis)
      (request : p.Request) where
    after_ue_cu-RepliesOrThrows :
        (nf_type : Option p.NfType) (nf_id : Option String) (reg : Option m.RegistrationInfo)
        (pdu : Option m.PduSessionInfo) (ue_cu : Option String)
        → RepliesOrThrows tt (
            after_ue_cu m sbi p apis.network_slice_information_document request nf_type nf_id reg
              pdu ue_cu)
    unfolding after_ue_cu
    after_ue_cu-RepliesOrThrows nf_type nf_id reg pdu (some text) =
        replies tt _ default_handler-RepliesOnce
    after_ue_cu-RepliesOrThrows nf_type nf_id reg pdu none =
        query_value-RepliesOrThrows p.plmn_id_value (p.query request "home-plmn-id") _ (λ home.
          query_value-RepliesOrThrows p.tai_value (p.query request "tai") _ (λ tai.
            query_value-RepliesOrThrows p.string_value (p.query request "supported-features") _
              (λ features.
                operation-RepliesOrThrows tt apis.network_slice_information_document.exceptions _
                  (answers.selection nf_type nf_id reg pdu none home tai features))))

    selection_handler :
        RepliesOnce tt
          (n_s_selection_get_handler m sbi p apis.network_slice_information_document request)
    unfolding n_s_selection_get_handler
    selection_handler =
        let ask = p.query request in
        let ue_cu = ask "slice-info-request-for-ue-cu" in
        handler-RepliesOnce tt _ (
          query_value-RepliesOrThrows p.nf_type_value (ask "nf-type") _ (λ nf_type.
            query_value-RepliesOrThrows p.string_value (ask "nf-id") _ (λ nf_id.
              query_value-RepliesOrThrows (always sbi.parse_registration)
                (ask sbi.registration_param) _
                (λ reg.
                  query_value-RepliesOrThrows (always sbi.parse_pdu_session)
                    (ask "slice-info-request-for-pdu-session") _
                    (λ pdu.
                      query_value-RepliesOrThrows (always sbi.parse_ue_cu) ue_cu _
                        (λ parsed. after_ue_cu-RepliesOrThrows nf_type nf_id reg pdu ue_cu))))))

    put_handler :
        RepliesOnce cfg
          (n_ssai_availability_put_handler m sbi p apis.nf_instance_id_document cfg request)
    unfolding n_ssai_availability_put_handler
    put_handler = handler-RepliesOnce cfg _ (
        lift-RepliesOrThrows cfg (p.param request ":nfId") _ (λ nf_id.
          with_body-RepliesOrThrows cfg apis.nf_instance_id_document.exceptions
            (validated p.validate_availability (sbi.parse_availability (p.body request))) _
            (λ info.
              operation-RepliesOrThrows cfg apis.nf_instance_id_document.exceptions _
                (answers.put nf_id info _ _))))

    delete_handler :
        RepliesOnce tt
          (n_ssai_availability_delete_handler m sbi p apis.nf_instance_id_document request)
    unfolding n_ssai_availability_delete_handler
    delete_handler = handler-RepliesOnce tt _ (
        lift-RepliesOrThrows tt (p.param request ":nfId") _ (λ nf_id.
          operation-RepliesOrThrows tt apis.nf_instance_id_document.exceptions _
            (answers.delete nf_id)))

    patch_handler :
        RepliesOnce tt
          (n_ssai_availability_patch_handler m sbi p apis.nf_instance_id_document request)
    unfolding n_ssai_availability_patch_handler
    patch_handler = handler-RepliesOnce tt _ (
        lift-RepliesOrThrows tt (p.param request ":nfId") _ (λ nf_id.
          with_body-RepliesOrThrows tt apis.nf_instance_id_document.exceptions
            (sbi.parse_patch_items (p.body request)) _
            (λ items.
              operation-RepliesOrThrows tt apis.nf_instance_id_document.exceptions _
                (answers.patch nf_id items _ _))))

    sub_modify_patch_handler :
        RepliesOnce tt (
          n_ssai_availability_sub_modify_patch_handler m sbi p apis.subscription_id_document
            request)
    unfolding n_ssai_availability_sub_modify_patch_handler
    sub_modify_patch_handler = handler-RepliesOnce tt _ (
        lift-RepliesOrThrows tt (p.param request ":subscriptionId") _ (λ id.
          with_body-RepliesOrThrows tt apis.subscription_id_document.exceptions
            (sbi.parse_patch_items (p.body request)) _
            (λ items.
              operation-RepliesOrThrows tt apis.subscription_id_document.exceptions _
                (answers.sub_modify_patch id items _))))

    unsubscribe_handler :
        RepliesOnce tt
          (n_ssai_availability_unsubscribe_handler m sbi p apis.subscription_id_document request)
    unfolding n_ssai_availability_unsubscribe_handler
    unsubscribe_handler = handler-RepliesOnce tt _ (
        lift-RepliesOrThrows tt (p.param request ":subscriptionId") _ (λ id.
          operation-RepliesOrThrows tt apis.subscription_id_document.exceptions _
            (answers.unsubscribe id)))

    post_handler :
        RepliesOnce tt
          (n_ssai_availability_post_handler m sbi p apis.subscriptions_collection request)
    unfolding n_ssai_availability_post_handler
    post_handler = handler-RepliesOnce tt _ (
        with_body-RepliesOrThrows tt apis.subscriptions_collection.exceptions
          (validated p.validate_subscription (p.parse_subscription (p.body request))) _
          (λ s.
            operation-RepliesOrThrows tt apis.subscriptions_collection.exceptions _
              (answers.post s _)))

    options_handler :
        RepliesOnce tt
          (n_ssai_availability_options_handler m sbi p apis.nssai_availability_store request)
    unfolding n_ssai_availability_options_handler
    options_handler =
        handler-RepliesOnce tt _
          (operation-RepliesOrThrows tt apis.nssai_availability_store.exceptions _ answers.options)

    slice_config_handlers :
        RepliesOnce tt (nssf_slice_config_get_handler m sbi p apis.nssf_slice_config request)
        × RepliesOnce tt (nssf_slice_config_get_apis_handler m sbi p apis.nssf_slice_config request)
    unfolding nssf_slice_config_get_handler nssf_slice_config_get_apis_handler
    slice_config_handlers =
        (catch_http-RepliesOnce _ answers.slice_config, catch_http-RepliesOnce _ answers.api_list)

    pub every_handler : AllReply cfg apis request
    every_handler = (
      selection_handler, put_handler, delete_handler, patch_handler, sub_modify_patch_handler,
      unsubscribe_handler, post_handler, options_handler, slice_config_handlers.0,
      slice_config_handlers.1, default_handler-RepliesOnce,
    )
