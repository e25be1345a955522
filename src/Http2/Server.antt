-- ===== src/Http2/Server.antt =====
-- The handlers that `nssf_http2_server::start` of src/api-server/nssf-http2-server.cpp gives to the
-- server of nghttp2, and the state that their callbacks share: the global configuration.
pub mod Chunks
pub mod Session
use oai_cn5g_nssf.Base.{ℕ, String, List, [], ◌∷◌, append}
use oai_cn5g_nssf.Model.{Model}
use oai_cn5g_nssf.Config.{NssfConfig}
use oai_cn5g_nssf.Server.{Sbi}
use oai_cn5g_nssf.Server.Action.{Action, Result, ok, thrown, pure, ◌>>=◌, ◌>>◌}
use oai_cn5g_nssf.Http2.Handlers.{Event}
use oai_cn5g_nssf.Http2.Routes.{
  on_slice_information, on_nssai_availability, on_subscriptions, on_slice_config, on_root,
}

-- What the callbacks read of a request: `method()`, `uri().path` and `uri().raw_query`.
pub record Request : Type 0 where
  pub method : String
  pub path : String
  pub raw_query : String

-- A part of the body, as a text and its length. At the end of the body the length is 0.
pub record Data : Type 0 where
  pub msg : String
  pub len : ℕ

module _ (m : Model) (sbi : Sbi m) where
  -- What a handler gives to `request.on_data`.
  abbrev pub Callback : Type 0
  Callback = NssfConfig m → Request → Data → Action Event (NssfConfig m)

  -- A callback that only reads the configuration.
  abbrev pub reads : (NssfConfig m → Request → Action Event (Unit {0})) → Callback
  reads act cfg request chunk = do act cfg request; pure cfg

  -- A call of `server.handle`.
  pub record Handle : Type 0 where
    pub pattern : String
    pub on_data : Callback

  -- The calls of `server.handle`, in order.
  unfoldable pub start_handles : List Handle
  start_handles =
      record {
        pattern =
            append (append sbi.ns_selection_base sbi.api_version)
              sbi.network_slice_information_path;
        on_data =
            reads (λ cfg request. on_slice_information m sbi cfg request.method request.raw_query);
      }
      ∷ record {
        pattern = append (append sbi.availability_base sbi.api_version) sbi.nssai_availability_path;
        on_data = λ cfg request chunk.
            on_nssai_availability m sbi cfg request.method request.path chunk.msg chunk.len;
      }
      ∷ record {
        pattern = append (append sbi.availability_base sbi.api_version) sbi.subscriptions_path;
        on_data = reads (λ cfg request. on_subscriptions m sbi);
      }
      ∷ record {
        pattern = "/nnssf-slice-config";
        on_data = reads (λ cfg request. on_slice_config m sbi request.method);
      }
      ∷ record { pattern = "/"; on_data = reads (λ cfg request. on_root m sbi request.method) }
      ∷ []

  -- The library calls the callback of a request once for each part of the body that it passes on, until
  -- an exception ends this. The events are the calls on the response that the callback makes, in their
  -- order: after the first `end` the library need not send anything for them.
  unfoldable pub on_body :
      Callback → NssfConfig m → Request → List Data → Action Event (NssfConfig m)
  on_body callback cfg request [] = pure cfg
  on_body callback cfg request (chunk ∷ rest) = do
    cfg' ← callback cfg request chunk
    on_body callback cfg' request rest

  -- The configuration after an action that returns it; one that throws has not written to it.
  abbrev pub config_after : NssfConfig m → Result (NssfConfig m) → NssfConfig m
  config_after cfg (ok cfg') = cfg'
  config_after cfg (thrown x) = cfg
