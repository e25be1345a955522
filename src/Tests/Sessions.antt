-- ===== src/Tests/Sessions.antt =====
-- Requests to the HTTP/2 server in sequence and in parts, and its start and stop.
use oai_cn5g_nssf.Base.{ℕ, String, ◌≡◌, ◌≤◌, ◌⊎◌, inl, inr, refl, true, false, [], ◌∷◌, arith}
use oai_cn5g_nssf.Tests.Concrete.{concrete, concrete_sbi}
use oai_cn5g_nssf.Tests.Selection.{config}
use oai_cn5g_nssf.Server.Action.{ok}
use oai_cn5g_nssf.Http2.Server.{Request, Data, start_handles, Handle, on_body, config_after}
use oai_cn5g_nssf.Http2.Server.Session.{started, later, request, config_unchanged}
use oai_cn5g_nssf.Http2.Server.Chunks.{availability_callback, calls_of_parts, each_part_handled}
use oai_cn5g_nssf.Http2.LifeCycle as LifeCycle
use oai_cn5g_nssf.Http2.LifeCycle.{
  idle, waiting, deleted, serving, ended, listen_and_serve_returns, reset_running, server_stop,
  leave_loop, delete_server,
}
use oai_cn5g_nssf.Http2.LifeCycle.Shutdown.{
  deleted_after_end, shutdown_ends, work, Advances, IsOver,
}

-- A PUT, of which no part can be parsed.
abbrev put : Request
put = record { method = "PUT"; path = "amf-9"; raw_query = "" }

abbrev part : String → ℕ → Data
part msg len = record { msg = msg; len = len }

each_part_handled_example :
    on_body concrete concrete_sbi
      (availability_callback concrete concrete_sbi config)
      config
      put
      (part "{" 1 ∷ part "}" 1 ∷ part "" 0 ∷ [])
      []
    ≡ (
      ok config,
      calls_of_parts concrete concrete_sbi config "amf-9" (part "{" 1 ∷ part "}" 1 ∷ []),
    )
each_part_handled_example =
    each_part_handled concrete concrete_sbi config put refl (λ e. cc) (part "{" 1 ∷ part "}" 1 ∷ [])
      (part "" 0) [] ((omega arith, inr (_, refl)), ((omega arith, inr (_, refl)), tt)) refl

abbrev availability_handle : Handle concrete concrete_sbi
availability_handle = record {
  pattern = "/nnssf-nssaiavailability/v1/nssai-availability";
  on_data = availability_callback concrete concrete_sbi config;
}

config_unchanged_example :
    config_after concrete concrete_sbi config
      (on_body concrete concrete_sbi
        (availability_callback concrete concrete_sbi config)
        config
        put
        (part "{" 1 ∷ [])
        []).0
    ≡ config
unfolding start_handles
config_unchanged_example =
    config_unchanged concrete concrete_sbi
      (later started (request availability_handle put (part "{" 1 ∷ []) [] (inr (inl refl))))

abbrev serving_state : LifeCycle.State
serving_state = record {
  running_server = true;
  stop_requested = false;
  server = serving;
  handler = idle;
}

-- The handler has been called, and waits.
abbrev stopping_state : LifeCycle.State
stopping_state = record {
  running_server = true;
  stop_requested = true;
  server = serving;
  handler = waiting;
}

-- The server ends before the handler deletes it.
abbrev orderly_end : LifeCycle.State
orderly_end = record {
  running_server = false;
  stop_requested = true;
  server = ended;
  handler = deleted;
}

abbrev stopping : LifeCycle.Reach serving_state stopping_state
stopping = LifeCycle.later LifeCycle.here (server_stop (inr refl))

abbrev ending : LifeCycle.Reach serving_state orderly_end
ending =
    let closed =
      LifeCycle.later (LifeCycle.later stopping listen_and_serve_returns) reset_running in
    LifeCycle.later (LifeCycle.later closed leave_loop) delete_server

deleted_after_end_example : orderly_end.server ≡ ended
deleted_after_end_example = deleted_after_end refl refl refl ending (inr refl)

shutdown_ends_example :
    (work stopping_state ≤ 4)
    × ((c : LifeCycle.Cause) (u : LifeCycle.State)
        → LifeCycle.Step c stopping_state u
        → (u ≡ stopping_state) ⊎ Advances stopping_state u)
    × (IsOver stopping_state
        ⊎ ((u : LifeCycle.State) × LifeCycle.Step LifeCycle.own stopping_state u
            × Advances stopping_state u))
shutdown_ends_example = shutdown_ends refl refl refl stopping (λ e. cc)
