-- ===== src/Http2/Routes.antt =====
-- The callbacks that `nssf_http2_server::start` of src/api-server/nssf-http2-server.cpp registers.
pub mod Selection
pub mod Extend
pub mod Registration
use oai_cn5g_nssf.Base.{
  ℕ, String, Bool, true, false, not, ◌&&◌, Option, none, List, [], ◌∷◌, ltb, ◌==◌, string_equality,
  if◌then◌else◌,
}
use oai_cn5g_nssf.Model.{Model}
use oai_cn5g_nssf.Config.{NssfConfig}
use oai_cn5g_nssf.Server.{Sbi, nf_type_param, home_plmn_id_param, tai_param}
use oai_cn5g_nssf.Server.Action.{
  Exception, json_error, http_error, std_error, Result, thrown, Action, pure, lift, try_catch,
  ◌>>=◌, ◌>>◌,
}
use oai_cn5g_nssf.Selection.Handlers.{is_empty}
use oai_cn5g_nssf.Http2.Handlers.{
  Event, send, get_slice_info_for_registration_handler, get_slice_info_for_pdu_session_handler,
  get_slice_info_for_ue_cu_handler, get_slice_info_default_handler,
  create_nssai_availability_handler, get_slice_config, get_api_list,
}

-- The last element of `split_result`.
abbrev pub last_part : List String → String
last_part [] = ""
last_part (p ∷ []) = p
last_part (p ∷ q ∷ ps) = last_part (q ∷ ps)

module _ (m : Model) (sbi : Sbi m) where
  -- `catch (nlohmann::detail::exception& e)`: 400 with no header and no body.
  abbrev pub catch_json : {A : Type 0} → A → Exception → Action Event A
  catch_json a (json_error what) = do send m.status.bad_request none none; pure a
  catch_json a (http_error code what) = lift (thrown (http_error code what))
  catch_json a (std_error what) = lift (thrown (std_error what))

  -- An optional query parameter: the default object if it is empty.
  abbrev pub parse_or : {A : Type 0} → A → (String → Result A) → String → Action Event A
  parse_or a parse text = if is_empty text then pure a else lift (parse text)

  -- The `GET` branch of the callback for slice selection. The handler of UE configuration updates is
  -- an argument, so that its part can be stated.
  unfoldable pub get_slice_information :
      (String → sbi.SliceInfoForUeCu → m.location.Tai → m.location.PlmnId → Action Event (Unit {0}))
      → NssfConfig m
      → String
      → Action Event (Unit {0})
  get_slice_information ue_cu_handler cfg qs = do
    let nf_type = sbi.get_query_param qs nf_type_param
    let slice_info_reg = sbi.get_query_param qs sbi.registration_param
    let slice_info_pdu_session = sbi.get_query_param qs sbi.pdu_session_param
    let slice_info_ue_cu = sbi.get_query_param qs sbi.registration_param
    home_plmnid ←
        parse_or m.location.plmn_id_init sbi.parse_plmn_id
          (sbi.get_query_param qs home_plmn_id_param)
    tai ← parse_or m.location.tai_init sbi.parse_tai (sbi.get_query_param qs tai_param)
    if not (is_empty slice_info_reg)
        then (do
          info ← lift (sbi.parse_registration slice_info_reg)
          get_slice_info_for_registration_handler m sbi cfg nf_type info tai home_plmnid)
        else if not (is_empty slice_info_pdu_session)
        then (do
          info ← lift (sbi.parse_pdu_session slice_info_pdu_session)
          get_slice_info_for_pdu_session_handler m sbi cfg nf_type info tai home_plmnid)
        else if not (is_empty slice_info_ue_cu)
        then (do
          info ← lift (sbi.parse_ue_cu slice_info_ue_cu)
          ue_cu_handler nf_type info tai home_plmnid)
        else get_slice_info_default_handler m sbi nf_type tai home_plmnid

  unfoldable pub on_slice_information : NssfConfig m → String → String → Action Event (Unit {0})
  unfolding get_slice_information
  on_slice_information cfg method raw_query =
      try_catch
        (if method == "GET"
          then get_slice_information (get_slice_info_for_ue_cu_handler m sbi) cfg raw_query
          else pure tt)
        (catch_json tt)

  -- The callback for NSSAI availability, on the data `msg` of the given length.
  unfoldable pub on_nssai_availability :
      NssfConfig m → String → String → String → ℕ → Action Event (NssfConfig m)
  on_nssai_availability cfg method path msg len =
      let nf_id = last_part (sbi.split_path path) in
      try_catch
        (if not (is_empty nf_id)
          then (do
            cfg' ←
                (if method == "PUT" && ltb 0 len
                  then (do
                    info ← lift (sbi.parse_availability msg)
                    create_nssai_availability_handler m sbi cfg nf_id info)
                  else pure cfg)
            (if method == "PATCH" && ltb 0 len
                then (do items ← lift (sbi.parse_patch_items msg); pure cfg')
                else pure cfg'))
          else pure cfg)
        (catch_json cfg)

  -- The callbacks for subscriptions, the slice configuration and the list of APIs.
  unfoldable pub on_subscriptions : Action Event (Unit {0})
  on_subscriptions = pure tt

  unfoldable pub on_slice_config : String → Action Event (Unit {0})
  on_slice_config method = if method == "GET" then get_slice_config m sbi else pure tt

  unfoldable pub on_root : String → Action Event (Unit {0})
  on_root method = if method == "GET" then get_api_list m sbi else pure tt
