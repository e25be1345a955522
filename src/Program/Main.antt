-- ===== src/Program/Main.antt =====
-- The start and the end of the program: src/oai_nssf/main.cpp. Both are functions on the global
-- pointers that give the list of their effects; logging is left out.
pub mod LifeCycle
use oai_cn5g_nssf.Base.{
  ℕ, String, Bool, true, false, not, Option, none, some, List, [], ◌∷◌, ◌++◌, ◌==◌, nat_equality,
  if◌then◌else◌,
}
use oai_cn5g_nssf.Program.Options.{Options, Outcome, exits, returned}

-- The application object, `nssf_app`.
pub data App : Type 0 where
  nssf_app : App

-- A server, with the pointer to the application that it was created with.
pub record Server : Type 0 where
  pub app : Option App

-- The global pointers; `none` is `nullptr`.
pub record Globals : Type 0 where
  pub nssf_app_inst : Option App
  pub nssf_api_server_1 : Option Server
  pub nssf_api_server_2 : Option Server

-- Their initial values.
abbrev pub globals_init : Globals
globals_init = record { nssf_app_inst = none; nssf_api_server_1 = none; nssf_api_server_2 = none }

-- What the environment decides: the result of `nssf_config::init` for the file, or `none` if it throws,
-- whether the PID file can be locked, and the configured HTTP version.
pub record Host : Type 0 where
  pub init : String → Option Bool
  pub lock_pid_file : Bool
  pub http_version : ℕ

pub data Effect : Type 0 where
  install_signal_handlers : Effect
  display_config : Effect
  serve_http1 : Server → Effect
  serve_http2 : Server → Effect
  write_status_file : Effect
  wait_for_signal : Effect
  shutdown_http1 : Effect
  stop_http2 : Effect
  delete_http1 : Effect
  delete_http2 : Effect
  delete_app : Effect

-- How `main` ends.
pub data Exit : Type 0 where
  exit_status : ℕ → Exit
  -- `exit(-EDEADLK)`
  exit_deadlock : Exit
  -- by an exception that `main` does not catch
  uncaught : Exit

pub record Run : Type 0 where
  pub effects : List Effect
  pub globals : Globals
  pub exit : Exit

-- The end of `main`, after the servers.
abbrev pub last_effects : List Effect
last_effects = write_status_file ∷ wait_for_signal ∷ []

-- The choice of a server. `main` waits for the thread of the server that it starts.
unfoldable pub run_server : Host → Globals → List Effect → Run
run_server host g before =
    let server : Server = record { app = g.nssf_app_inst } in
    if host.http_version == 1
    then record {
      effects = before ++ serve_http1 server ∷ last_effects;
      globals = record g { nssf_api_server_1 = some server };
      exit = exit_status 0;
    }
    else if host.http_version == 2
    then record {
      effects = before ++ serve_http2 server ∷ last_effects;
      globals = record g { nssf_api_server_2 = some server };
      exit = exit_status 0;
    }
    else record { effects = before ++ last_effects; globals = g; exit = exit_status 0 }

-- `main` from the point where the configuration is read.
unfoldable pub after_init : Host → Globals → Option Bool → Run
unfolding run_server
after_init host g none = record {
  effects = install_signal_handlers ∷ [];
  globals = g;
  exit = uncaught;
}
after_init host g (some good) =
    let before = install_signal_handlers ∷ display_config ∷ [] in
    if not good
    then record { effects = before; globals = g; exit = exit_status 1 }
    else if not host.lock_pid_file
    then record { effects = before; globals = g; exit = exit_deadlock }
    else run_server host g before

-- `main` from the point where the options are accepted.
unfoldable pub start : Host → Globals → Options → Run
unfolding after_init
start host g o = after_init host g (host.init o.m_libconfigcfg)

-- `main`, given what `Options::parse` does.
unfoldable pub main : Host → Globals → Outcome → Run
unfolding start
main host g exits = record { effects = []; globals = g; exit = exit_status 0 }
main host g (returned false o) = record { effects = []; globals = g; exit = exit_status 1 }
main host g (returned true o) = start host g o

-- An effect if a pointer is not null.
abbrev pub if_set : {A : Type 0} → Option A → Effect → List Effect
if_set none e = []
if_set (some a) e = e ∷ []

-- `my_app_signal_handler`, which then exits with 0.
unfoldable pub my_app_signal_handler : Globals → Run
my_app_signal_handler g = record {
  effects =
      if_set g.nssf_api_server_1 shutdown_http1
      ++ if_set g.nssf_api_server_2 stop_http2
      ++ if_set g.nssf_api_server_1 delete_http1
      ++ if_set g.nssf_api_server_2 delete_http2
      ++ if_set g.nssf_app_inst delete_app;
  globals = globals_init;
  exit = exit_status 0;
}
