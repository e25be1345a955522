-- ===== src/Http1/Server.antt =====
-- The constructor of `NSSFApiServer` in src/api-server/nssf-api-server.h, which creates the six
-- implementations, and what they answer.
pub mod Put
pub mod Selection
use oai_cn5g_nssf.Base.{
  String, refl, Bool, true, false, not, Option, none, some, ◌==◌, nat_equality, if◌then◌else◌,
}
use oai_cn5g_nssf.Model.{Model}
use oai_cn5g_nssf.Config.{NssfConfig}
use oai_cn5g_nssf.Availability.Create.{nssf_cfg-handle_create_nssai_availability}
use oai_cn5g_nssf.App
use oai_cn5g_nssf.Server.{Sbi}
use oai_cn5g_nssf.Server.Action.{Action, pure, ◌>>=◌, ◌>>◌}
use oai_cn5g_nssf.Http1.Pistache.{Event, Pistache}
use oai_cn5g_nssf.Http1.Operations.{NssfApis}
use oai_cn5g_nssf.Http1.Impl.{
  reply, not_implemented, n_s_selection_get, n_ssai_availability_put, n_ssai_availability_delete,
  n_ssai_availability_patch, n_ssai_availability_options, n_ssai_availability_post,
  n_ssai_availability_sub_modify_patch, n_ssai_availability_unsubscribe, nssf_slice_config_get_apis,
  nssf_slice_config_get,
}
use oai_cn5g_nssf.Http1.Api.Exceptions as Exceptions
use oai_cn5g_nssf.Http1.Api.Once.{
  RepliesOnce, replies, replies_http, send-RepliesOnce, reply-RepliesOnce, leaving-RepliesOnce,
}
use oai_cn5g_nssf.Http1.Api.Handlers.{Answers}

module _ (m : Model) (sbi : Sbi m) (p : Pistache m) where
  -- The operations by their classes, with the configuration at the time of the call. They use neither
  -- the header parameters nor the ID and the features of a consumer.
  unfoldable pub nssf_api_server : NssfConfig m → NssfApis m sbi p
  nssf_api_server cfg = record {
    nf_instance_id_document = record {
      exceptions = Exceptions.nf_instance_id_document;
      n_ssai_availability_delete = n_ssai_availability_delete m sbi p;
      n_ssai_availability_patch = λ nf_id items content_encoding accept_encoding.
          n_ssai_availability_patch m sbi p nf_id items;
      n_ssai_availability_put = λ nf_id info content_encoding accept_encoding.
          n_ssai_availability_put m sbi p cfg nf_id info;
    };
    subscription_id_document = record {
      exceptions = Exceptions.subscription_id_document;
      n_ssai_availability_sub_modify_patch = λ subscription_id items content_encoding.
          n_ssai_availability_sub_modify_patch m sbi p subscription_id items;
      n_ssai_availability_unsubscribe = n_ssai_availability_unsubscribe m sbi p;
    };
    subscriptions_collection = record {
      exceptions = Exceptions.subscriptions_collection;
      n_ssai_availability_post =
          λ subscription content_encoding. n_ssai_availability_post m sbi p subscription;
    };
    nssai_availability_store = record {
      exceptions = Exceptions.nssai_availability_store;
      n_ssai_availability_options = n_ssai_availability_options m sbi p;
    };
    network_slice_information_document = record {
      exceptions = Exceptions.network_slice_information_document;
      n_s_selection_get = λ nf_type nf_id reg pdu ue_cu home tai features.
          n_s_selection_get m sbi p cfg nf_type reg pdu home tai;
    };
    nssf_slice_config = record {
      exceptions = Exceptions.nssf_slice_config;
      nssf_slice_config_get_apis = nssf_slice_config_get_apis m sbi p;
      nssf_slice_config_get = nssf_slice_config_get m sbi p;
    };
  }

if-RepliesOnce :
    (c : Bool) (a b : Action Event (Unit {0}))
    → RepliesOnce tt a
    → RepliesOnce tt b
    → RepliesOnce tt (if c then a else b)
if-RepliesOnce true a b f g = f
if-RepliesOnce false a b f g = g

not_implemented-RepliesOnce : RepliesOnce tt not_implemented
unfolding not_implemented
not_implemented-RepliesOnce = send-RepliesOnce _ _

if_leaving-RepliesOnce :
    {A : Type 0} (c : Bool) (f g : Action Event (Unit {0})) (a : A)
    → RepliesOnce tt f
    → RepliesOnce tt g
    → RepliesOnce a (if c then (do f; pure a) else (do g; pure a))
if_leaving-RepliesOnce true f g a h k = leaving-RepliesOnce a f h
if_leaving-RepliesOnce false f g a h k = leaving-RepliesOnce a g k

module _ (m : Model) (sbi : Sbi m) (p : Pistache m) (cfg : NssfConfig m) where
  n_s_selection_get-RepliesOnce :
      (nf_type : Option p.NfType) (reg : Option m.RegistrationInfo) (pdu : Option m.PduSessionInfo)
      (home : Option m.location.PlmnId) (tai : Option m.location.Tai)
      → RepliesOnce tt (n_s_selection_get m sbi p cfg nf_type reg pdu home tai)
  unfolding n_s_selection_get
  n_s_selection_get-RepliesOnce none reg pdu home tai = send-RepliesOnce _ _
  n_s_selection_get-RepliesOnce (some t) reg pdu home tai =
      if-RepliesOnce _ _ _ (reply-RepliesOnce _ _ _) (reply-RepliesOnce _ _ _)

  put-RepliesOnce :
      (nf_id : String) (info : m.AvailabilityInfo)
      → RepliesOnce cfg (n_ssai_availability_put m sbi p cfg nf_id info)
  unfolding n_ssai_availability_put App.handle_create_nssai_availability
  put-RepliesOnce nf_id info =
      let out = App.handle_create_nssai_availability m cfg nf_id info 0 m.problem.init in
      let problem = some (sbi.dump_problem out.problem_details) in
      let auth = some (sbi.dump_auth_availability m.auth_availability_init) in
      rw (nssf_cfg-handle_create_nssai_availability m cfg nf_id info 0) (
        if_leaving-RepliesOnce (not (out.http_code == m.status.ok_code))
          (reply "application/problem+json" out.http_code problem)
          (reply "application/json" out.http_code auth) cfg
          (reply-RepliesOnce "application/problem+json" out.http_code problem)
          (reply-RepliesOnce "application/json" out.http_code auth))

  slice_config-RepliesOnce :
      RepliesOnce tt (nssf_slice_config_get m sbi p)
      × RepliesOnce tt (nssf_slice_config_get_apis m sbi p)
  unfolding nssf_slice_config_get nssf_slice_config_get_apis
  slice_config-RepliesOnce = (
    reply-RepliesOnce "application/json" m.status.service_unavailable none,
    reply-RepliesOnce "application/json" m.status.ok_code _,
  )

  pub nssf_api_server-Answers : Answers m sbi p cfg (nssf_api_server m sbi p cfg)
  unfolding nssf_api_server n_ssai_availability_delete n_ssai_availability_patch
      n_ssai_availability_sub_modify_patch n_ssai_availability_unsubscribe n_ssai_availability_post
      n_ssai_availability_options
  nssf_api_server-Answers =
      let refused = replies tt not_implemented not_implemented-RepliesOnce in
      record {
        delete = λ nf_id. refused;
        patch = λ nf_id items ce ae. refused;
        put = λ nf_id info ce ae. replies cfg _ (put-RepliesOnce nf_id info);
        sub_modify_patch = λ id items ce. refused;
        unsubscribe = λ id. refused;
        post = λ subscription ce. refused;
        options = refused;
        selection = λ nf_type nf_id reg pdu ue_cu home tai features.
            replies tt _ (n_s_selection_get-RepliesOnce nf_type reg pdu home tai);
        slice_config = replies_http _ slice_config-RepliesOnce.0;
        api_list = replies_http _ slice_config-RepliesOnce.1;
      }
