-- ===== src/Http1/Api.antt =====
-- The generated handlers of src/api-server/api, one per operation: they convert the parts of a request,
-- call the operation and turn exceptions into replies.
pub mod Exceptions
pub mod Once
pub mod Handlers
use oai_cn5g_nssf.Base.{ℕ, String, Option, none, some}
use oai_cn5g_nssf.Model.{Model}
use oai_cn5g_nssf.Config.{NssfConfig}
use oai_cn5g_nssf.Server.{Sbi}
use oai_cn5g_nssf.Server.Action.{
  Exception, json_error, http_error, std_error, Result, ok, thrown, Action, pure, lift, emit,
  try_catch, ◌>>=◌, ◌>>◌,
}
use oai_cn5g_nssf.Http1.Pistache.{
  Event, send_reply, Pistache, what, code_bad_request, code_not_found, code_internal_server_error,
}
use oai_cn5g_nssf.Http1.Operations.{
  Translators, NetworkSliceInformationDocumentApi, NfInstanceIdDocumentApi,
  SubscriptionIdDocumentApi, SubscriptionsCollectionApi, NssaiAvailabilityStoreApi,
  NssfSliceConfigApi,
}

-- `handleParsingException`
abbrev pub handle_parsing_exception : Exception → ℕ × String
handle_parsing_exception (json_error s) = (code_bad_request, s)
handle_parsing_exception (http_error code s) = (code_internal_server_error, s)
handle_parsing_exception (std_error s) = (code_internal_server_error, s)

-- `handleOperationException`
abbrev pub handle_operation_exception : Exception → ℕ × String
handle_operation_exception x = (code_internal_server_error, what x)

abbrev pub send_error : ℕ × String → Action Event (Unit {0})
send_error (code, text) = emit (send_reply code (some text))

-- The action, which then returns `a`.
abbrev pub leaving : {A : Type 0} → A → Action Event (Unit {0}) → Action Event A
leaving a act = act >>= λ _. pure a

-- The two `catch` clauses around an operation.
abbrev pub catch_operation : Translators → Exception → Action Event (Unit {0})
catch_operation t (http_error code s) = send_error (code, s)
catch_operation t (json_error s) = send_error (t.handle_operation_exception (json_error s))
catch_operation t (std_error s) = send_error (t.handle_operation_exception (std_error s))

-- In what follows `a` is what is left by an action that fails: nothing, or the configuration as it was.
abbrev pub operation : {A : Type 0} → A → Translators → Action Event A → Action Event A
operation a t act = try_catch act (λ x. leaving a (catch_operation t x))

-- The outer `catch` of a handler.
abbrev pub handler : {A : Type 0} → A → Action Event A → Action Event A
handler a act =
    try_catch act (λ x. leaving a (emit (send_reply code_internal_server_error (some (what x)))))

-- The inner `try` around the body of a request.
abbrev pub with_body :
    {A B : Type 0} → B → Translators → Result A → (A → Action Event B) → Action Event B
with_body b t (ok a) next = next a
with_body b t (thrown x) next = leaving b (send_error (t.handle_parsing_exception x))

-- A parameter of a query, converted if it is given.
abbrev pub query_value :
    {A : Type 0} → (String → Result (Option A)) → Option String → Action Event (Option A)
query_value convert none = pure none
query_value convert (some text) = lift (convert text)

-- `fromStringValueHelper` throws or returns true.
abbrev pub always : {A : Type 0} → (String → Result A) → String → Result (Option A)
always parse text = given (parse text)
  where
    given : {A : Type 0} → Result A → Result (Option A)
    given (ok a) = ok (some a)
    given (thrown x) = thrown x

-- `validate` after the conversion of a body.
abbrev pub validated : {A : Type 0} → (A → Result (Unit {0})) → Result A → Result A
validated check (thrown x) = thrown x
validated check (ok a) = checked a (check a)
  where
    checked : {A : Type 0} → A → Result (Unit {0}) → Result A
    checked a (ok u) = ok a
    checked a (thrown x) = thrown x

-- The handlers of the slice configuration catch only `HttpError`.
abbrev pub catch_http : Exception → Action Event (Unit {0})
catch_http (http_error code s) = send_error (code, s)
catch_http (json_error s) = lift (thrown (json_error s))
catch_http (std_error s) = lift (thrown (std_error s))

unfoldable pub default_handler : Action Event (Unit {0})
default_handler = emit (send_reply code_not_found (some "The requested method does not exist"))

module _ (m : Model) (sbi : Sbi m) (p : Pistache m) where
  open p use {Request, query, param, body, header}

  module _ (api : NetworkSliceInformationDocumentApi m sbi p) where
    -- The second half of `n_s_selection_get_handler`, after the parameter for UE configuration updates,
    -- whose value is parsed and then refused.
    unfoldable pub after_ue_cu :
        Request
        → Option p.NfType
        → Option String
        → Option m.RegistrationInfo
        → Option m.PduSessionInfo
        → Option String
        → Action Event (Unit {0})
    unfolding default_handler
    after_ue_cu request nf_type nf_id reg pdu (some text) = default_handler
    after_ue_cu request nf_type nf_id reg pdu none = do
      home ← query_value p.plmn_id_value (query request "home-plmn-id")
      tai ← query_value p.tai_value (query request "tai")
      features ← query_value p.string_value (query request "supported-features")
      operation tt api.exceptions
          (api.n_s_selection_get nf_type nf_id reg pdu none home tai features)

    unfoldable pub n_s_selection_get_handler : Request → Action Event (Unit {0})
    unfolding after_ue_cu
    n_s_selection_get_handler request = handler tt (do
      nf_type ← query_value p.nf_type_value (query request "nf-type")
      nf_id ← query_value p.string_value (query request "nf-id")
      reg ← query_value (always sbi.parse_registration) (query request sbi.registration_param)
      pdu ←
          query_value (always sbi.parse_pdu_session)
            (query request "slice-info-request-for-pdu-session")
      ue_cu ← query_value (always sbi.parse_ue_cu) (query request "slice-info-request-for-ue-cu")
      after_ue_cu request nf_type nf_id reg pdu (query request "slice-info-request-for-ue-cu"))

  module _ (api : NfInstanceIdDocumentApi m sbi p) where
    unfoldable pub n_ssai_availability_delete_handler : Request → Action Event (Unit {0})
    n_ssai_availability_delete_handler request = handler tt (do
      nf_id ← lift (param request ":nfId")
      operation tt api.exceptions (api.n_ssai_availability_delete nf_id))

    unfoldable pub n_ssai_availability_patch_handler : Request → Action Event (Unit {0})
    n_ssai_availability_patch_handler request = handler tt (do
      nf_id ← lift (param request ":nfId")
      let content_encoding = header request "Content-Encoding"
      let accept_encoding = header request "Accept-Encoding"
      with_body tt api.exceptions (sbi.parse_patch_items (body request)) (λ items.
          operation tt api.exceptions
            (api.n_ssai_availability_patch nf_id items content_encoding accept_encoding)))

    unfoldable pub n_ssai_availability_put_handler :
        NssfConfig m → Request → Action Event (NssfConfig m)
    n_ssai_availability_put_handler cfg request = handler cfg (do
      nf_id ← lift (param request ":nfId")
      let content_encoding = header request "Content-Encoding"
      let accept_encoding = header request "Accept-Encoding"
      with_body cfg api.exceptions
          (validated p.validate_availability (sbi.parse_availability (body request)))
          (λ info.
            operation cfg api.exceptions
              (api.n_ssai_availability_put nf_id info content_encoding accept_encoding)))

  module _ (api : SubscriptionIdDocumentApi m sbi p) where
    unfoldable pub n_ssai_availability_sub_modify_patch_handler : Request → Action Event (Unit {0})
    n_ssai_availability_sub_modify_patch_handler request = handler tt (do
      subscription_id ← lift (param request ":subscriptionId")
      let content_encoding = header request "Content-Encoding"
      with_body tt api.exceptions (sbi.parse_patch_items (body request)) (λ items.
          operation tt api.exceptions
            (api.n_ssai_availability_sub_modify_patch subscription_id items content_encoding)))

    unfoldable pub n_ssai_availability_unsubscribe_handler : Request → Action Event (Unit {0})
    n_ssai_availability_unsubscribe_handler request = handler tt (do
      subscription_id ← lift (param request ":subscriptionId")
      operation tt api.exceptions (api.n_ssai_availability_unsubscribe subscription_id))

  unfoldable pub n_ssai_availability_post_handler :
      SubscriptionsCollectionApi m p → Request → Action Event (Unit {0})
  n_ssai_availability_post_handler api request = handler tt (do
    let content_encoding = header request "Content-Encoding"
    with_body tt api.exceptions
        (validated p.validate_subscription (p.parse_subscription (body request)))
        (λ subscription.
          operation tt api.exceptions (api.n_ssai_availability_post subscription content_encoding)))

  unfoldable pub n_ssai_availability_options_handler :
      NssaiAvailabilityStoreApi → Request → Action Event (Unit {0})
  n_ssai_availability_options_handler api request =
      handler tt (operation tt api.exceptions api.n_ssai_availability_options)

  unfoldable pub nssf_slice_config_get_handler :
      NssfSliceConfigApi → Request → Action Event (Unit {0})
  nssf_slice_config_get_handler api request = try_catch api.nssf_slice_config_get catch_http

  unfoldable pub nssf_slice_config_get_apis_handler :
      NssfSliceConfigApi → Request → Action Event (Unit {0})
  nssf_slice_config_get_apis_handler api request =
      try_catch api.nssf_slice_config_get_apis catch_http
