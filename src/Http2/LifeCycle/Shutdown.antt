-- ===== src/Http2/LifeCycle/Shutdown.antt =====
-- Shutdown: how the signal handler and the thread of the server wait for each other, and what happens if
-- the signal comes too early.
use oai_cn5g_nssf.Base.{ℕ, suc, ◌+◌, ◌≡◌, ◌≢◌, refl, Bool, true, false, ◌⊎◌, inl, inr, arith, ◌≤◌}
use oai_cn5g_nssf.Http2.LifeCycle.{
  ServerPc, starting, serving, returned, ended, HandlerPc, idle, waiting, stopped, deleted, State,
  Cause, own, Step, set_running, listen_and_serve_returns, listen_and_serve_fails, reset_running,
  server_stop, sleep, leave_loop, delete_server, Reach, here, later, created,
}

-- What holds once the server has come to `listen_and_serve` before the signal: `running_server` tells
-- whether its thread has ended, and the handler is past its loop only if it has.
abbrev pub Orderly : State → Type 0
Orderly s =
    ((s.running_server ≡ true)
      × ((s.server ≡ serving) ⊎ (s.server ≡ returned))
      × ((s.handler ≡ idle) ⊎ (s.handler ≡ waiting)))
    ⊎ ((s.running_server ≡ false) × (s.server ≡ ended))

Orderly-Step : {c : Cause} {s t : State} → Orderly s → Step c s t → Orderly t
Orderly-Step o set_running = ground arith
Orderly-Step o listen_and_serve_returns = ground arith
Orderly-Step o listen_and_serve_fails = ground arith
Orderly-Step o reset_running = ground arith
Orderly-Step o (server_stop early) = ground arith
Orderly-Step o sleep = ground arith
Orderly-Step o leave_loop = ground arith
Orderly-Step o delete_server = ground arith

Orderly-Reach : {s t : State} → Orderly s → Reach s t → Orderly t
Orderly-Reach o here = o
Orderly-Reach o (later before step) = Orderly-Step (Orderly-Reach o before) step

-- If the signal comes when the thread of the server is in `listen_and_serve`, then the server object is
-- deleted, or the waiting over, only after this thread has ended, however the steps interleave.
pub deleted_after_end :
    {s t : State}
    → s.running_server ≡ true
    → s.server ≡ serving
    → s.handler ≡ idle
    → Reach s t
    → (t.handler ≡ stopped) ⊎ (t.handler ≡ deleted)
    → t.server ≡ ended
deleted_after_end running serves no_signal reach gone =
    let o = Orderly-Reach (inl (running, inl serves, inl no_signal)) reach in ground arith

-- A signal that comes before: if the object holds false where the constructor leaves `running_server`
-- unset, then the handler can delete the object while the thread of the server has not yet started, which
-- then serves on the deleted object.
pub early_signal_deletes :
    (t : State) × Reach (created false) t × (t.handler ≡ deleted) × (t.server ≡ serving)
early_signal_deletes = (
  record { running_server = true; stop_requested = false; server = serving; handler = deleted },
  later (later (later (later here (server_stop (inl refl))) leave_loop) delete_server) set_running,
  refl,
  refl,
)

-- The steps that are left to both threads, apart from waiting.
abbrev pub server_work : ServerPc → ℕ
server_work starting = 3
server_work serving = 2
server_work returned = 1
server_work ended = 0

abbrev pub handler_work : HandlerPc → ℕ
handler_work idle = 3
handler_work waiting = 2
handler_work stopped = 1
handler_work deleted = 0

abbrev pub work : State → ℕ
work s = server_work s.server + handler_work s.handler

abbrev pub Advances : State → State → Type 0
Advances s t = work s ≡ suc (work t)

Step-work : {c : Cause} {s t : State} → Step c s t → (t ≡ s) ⊎ Advances s t
Step-work set_running = inr (omega arith)
Step-work listen_and_serve_returns = inr (omega arith)
Step-work listen_and_serve_fails = inr (omega arith)
Step-work reset_running = inr (omega arith)
Step-work (server_stop early) = inr (omega arith)
Step-work sleep = inl refl
Step-work leave_loop = inr (omega arith)
Step-work delete_server = inr (omega arith)

abbrev pub IsOver : State → Type 0
IsOver s = (s.server ≡ ended) × (s.handler ≡ deleted)

-- The handler has asked the server to stop before it waits.
abbrev pub Asks : State → Type 0
Asks s = s.handler ≢ idle → s.stop_requested ≡ true

Asks-Step : {c : Cause} {s t : State} → Orderly s → Asks s → Step c s t → Asks t
Asks-Step o a set_running = a
Asks-Step o a listen_and_serve_returns = a
Asks-Step o a listen_and_serve_fails = a
Asks-Step o a reset_running = a
Asks-Step o a (server_stop early) = ground arith
Asks-Step o a sleep = a
Asks-Step o a leave_loop = λ e. a (λ f. cc)
Asks-Step o a delete_server = λ e. a (λ f. cc)

Asks-Reach : {s t : State} → Orderly s → Asks s → Reach s t → Asks t
Asks-Reach o a here = a
Asks-Reach o a (later before step) = Asks-Step (Orderly-Reach o before) (Asks-Reach o a before) step

-- Once the handler has been called, the server has ended or goes on by itself, and then the handler.
advance :
    (b r : Bool) (p : ServerPc) (h : HandlerPc)
    → let s : State = record { running_server = b; stop_requested = r; server = p; handler = h } in
      Orderly s → Asks s → h ≢ idle → IsOver s ⊎ ((t : State) × Step own s t × Advances s t)
advance b r starting h o a called = absurd (ground arith)
advance b true serving h o a called = inr (_, listen_and_serve_returns, omega arith)
advance b false serving h o a called = absurd (ground (arith, a called))
advance b r returned h o a called = inr (_, reset_running, omega arith)
advance b r ended idle o a called = absurd (called refl)
advance true r ended waiting o a called = absurd (ground arith)
advance false r ended waiting o a called = inr (_, leave_loop, omega arith)
advance b r ended stopped o a called = inr (_, delete_server, omega arith)
advance b r ended deleted o a called = inl (refl, refl)

at_most : (s : State) → Orderly s → s.handler ≢ idle → work s ≤ 4
at_most s o called = ground arith

-- If the signal comes when the thread of the server is in `listen_and_serve`, then the shutdown comes to
-- an end, however the steps interleave. In every state that is reached after the signal, any step either
-- changes nothing, which is the sleep of the waiting loop, or takes one of the at most four steps that are
-- left; and until the thread of the server has ended and the object is deleted, some thread can take such
-- a step by its own code, without a failure and without another signal.
pub shutdown_ends :
    {s t : State}
    → s.running_server ≡ true
    → s.server ≡ serving
    → s.handler ≡ idle
    → Reach s t
    → t.handler ≢ idle
    → (work t ≤ 4)
      × ((c : Cause) (u : State) → Step c t u → (u ≡ t) ⊎ Advances t u)
      × (IsOver t ⊎ ((u : State) × Step own t u × Advances t u))
shutdown_ends {s} {t} running serves no_signal reach called =
    let start : Orderly s = inl (running, inl serves, inl no_signal) in
    let o = Orderly-Reach start reach in
    let asks = Asks-Reach start (λ e. absurd (e no_signal)) reach in
    (
      at_most t o called,
      (λ c u step. Step-work step),
      advance t.running_server t.stop_requested t.server t.handler o asks called,
    )
