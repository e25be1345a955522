-- ===== src/Program/Main/LifeCycle.antt =====
-- When the program serves requests, and what it does with its objects.
use oai_cn5g_nssf.Base.{
  ◌≡◌, refl, sym, ap, subst, ◌↔◌, ◌⊎◌, true, false, Option, none, some, List, [], ◌++◌, Any, All,
  arith, nat_equality,
}
use oai_cn5g_nssf.Program.Options.{Options, Outcome, exits, returned}
use oai_cn5g_nssf.Program.Main.{
  App, Server, Globals, Host, Effect, serve_http1, serve_http2, shutdown_http1, stop_http2,
  delete_http1, delete_http2, delete_app, install_signal_handlers, display_config,
  write_status_file, wait_for_signal, Run, run_server, after_init, start, main,
  my_app_signal_handler, if_set,
}

-- The program serves requests, with the given pointer to the application.
abbrev pub Serves : Option App → Effect → Type 0
Serves app (serve_http1 s) = s.app ≡ app
Serves app (serve_http2 s) = s.app ≡ app
Serves app install_signal_handlers = ⊥
Serves app display_config = ⊥
Serves app write_status_file = ⊥
Serves app wait_for_signal = ⊥
Serves app shutdown_http1 = ⊥
Serves app stop_http2 = ⊥
Serves app delete_http1 = ⊥
Serves app delete_http2 = ⊥
Serves app delete_app = ⊥

-- The program can start with the options.
abbrev pub CanServe : Host → Options → Type 0
CanServe host o =
    (host.init o.m_libconfigcfg ≡ some true)
    × (host.lock_pid_file ≡ true)
    × ((host.http_version ≡ 1) ⊎ (host.http_version ≡ 2))

start_iff :
    (host : Host) (g : Globals) (o : Options)
    → Any (Serves g.nssf_app_inst) (start host g o).effects ↔ CanServe host o
unfolding start after_init run_server
start_iff host g o = ground arith

-- `main` serves requests exactly if the options are accepted, the configuration can be read, the PID
-- file can be locked and the HTTP version is 1 or 2; the server then works with the application pointer
-- that the program started with, which `main` never sets.
pub main_iff :
    (host : Host) (g : Globals) (out : Outcome)
    → Any (Serves g.nssf_app_inst) (main host g out).effects
      ↔ ((o : Options) × (out ≡ returned true o) × CanServe host o)
unfolding main
main_iff host g exits = ((λ h. absurd h), (λ (o, e, h). absurd (cc)))
main_iff host g (returned false o) = ((λ h. absurd h), (λ (o', e, h). absurd (cc)))
main_iff host g (returned true o) = (
  (λ h. (o, refl, (start_iff host g o).0 h)),
  (λ (o', e, h). (start_iff host g o).1 (subst (CanServe host) (sym (ap options_of e)) h)),
)
  where
    options_of : Outcome → Options
    options_of exits = o
    options_of (returned r o') = o'

abbrev pub IsStop : Effect → Type 0
IsStop e = (e ≡ shutdown_http1) ⊎ (e ≡ stop_http2)

abbrev pub IsDelete : Effect → Type 0
IsDelete e = (e ≡ delete_http1) ⊎ (e ≡ delete_http2) ⊎ (e ≡ delete_app)

abbrev pub Exists : {A : Type 0} → Option A → Type 0
Exists none = ⊥
Exists (some a) = Unit

-- The handler has stopped exactly the servers that there are before it deletes anything, deletes exactly
-- what there is, and leaves nothing that a second call would delete.
abbrev pub Releases : Globals → Run → Type 0
Releases g run =
    ((stops : List Effect) × (deletes : List Effect) × (run.effects ≡ stops ++ deletes)
      × All IsStop stops
      × All IsDelete deletes)
    × (Any (λ e. e ≡ shutdown_http1) run.effects ↔ Exists g.nssf_api_server_1)
    × (Any (λ e. e ≡ stop_http2) run.effects ↔ Exists g.nssf_api_server_2)
    × (Any (λ e. e ≡ delete_http1) run.effects ↔ Exists g.nssf_api_server_1)
    × (Any (λ e. e ≡ delete_http2) run.effects ↔ Exists g.nssf_api_server_2)
    × (Any (λ e. e ≡ delete_app) run.effects ↔ Exists g.nssf_app_inst)
    × ((my_app_signal_handler run.globals).effects ≡ [])

split_effects :
    (a : Option App) (s t : Option Server)
    → let stops = if_set s shutdown_http1 ++ if_set t stop_http2 in
      let deletes = if_set s delete_http1 ++ if_set t delete_http2 ++ if_set a delete_app in
      (if_set s shutdown_http1
          ++ if_set t stop_http2
          ++ if_set s delete_http1
          ++ if_set t delete_http2
          ++ if_set a delete_app
        ≡ stops ++ deletes)
      × All IsStop stops
      × All IsDelete deletes
split_effects a s t = ground arith

effects_iff :
    (a : Option App) (s t : Option Server)
    → let effects =
        if_set s shutdown_http1
        ++ if_set t stop_http2
        ++ if_set s delete_http1
        ++ if_set t delete_http2
        ++ if_set a delete_app in
      (Any (λ e. e ≡ shutdown_http1) effects ↔ Exists s)
      × (Any (λ e. e ≡ stop_http2) effects ↔ Exists t)
      × (Any (λ e. e ≡ delete_http1) effects ↔ Exists s)
      × (Any (λ e. e ≡ delete_http2) effects ↔ Exists t)
      × (Any (λ e. e ≡ delete_app) effects ↔ Exists a)
effects_iff a s t = ground arith

-- The signal handler stops each of the two servers exactly if it exists, and all of this before it
-- deletes anything; it deletes each of the three objects exactly if it exists, and leaves null pointers, so that a second call would do nothing.
pub my_app_signal_handler-Releases : (g : Globals) → Releases g (my_app_signal_handler g)
unfolding my_app_signal_handler
my_app_signal_handler-Releases g =
    let a = g.nssf_app_inst in
    let s = g.nssf_api_server_1 in
    let t = g.nssf_api_server_2 in
    let (stop1, stop2, http1, http2, app) = effects_iff a s t in
    let (e, stops, deletes) = split_effects a s t in
    (
      (
        if_set s shutdown_http1 ++ if_set t stop_http2,
        if_set s delete_http1 ++ if_set t delete_http2 ++ if_set a delete_app,
        e,
        stops,
        deletes,
      ),
      stop1,
      stop2,
      http1,
      http2,
      app,
      refl,
    )
