-- ===== src/Http2/LifeCycle.antt =====
-- Start and stop of the HTTP/2 server: the end of `nssf_http2_server::start` in the thread of the
-- server, and `nssf_http2_server::stop` and the deletion in the signal handler, which interrupts the
-- main thread at any time (src/api-server/nssf-http2-server.cpp and src/oai_nssf/main.cpp).
pub mod Shutdown
use oai_cn5g_nssf.Base.{Bool, true, false, ◌≡◌, ◌⊎◌}

-- Where the thread of the server is: before `running_server = true`, in `listen_and_serve`, after it,
-- and after `running_server = false`.
pub data ServerPc : Type 0 where
  starting : ServerPc
  serving : ServerPc
  returned : ServerPc
  ended : ServerPc

-- Where the signal handler is: not called, in the loop of `stop` after `server.stop()`, after `stop`, and
-- after `delete`.
pub data HandlerPc : Type 0 where
  idle : HandlerPc
  waiting : HandlerPc
  stopped : HandlerPc
  deleted : HandlerPc

-- The fields `running_server` and `server` of the server object, where of the latter only whether its
-- `stop` was called is kept, and both threads.
pub record State : Type 0 where
  pub running_server : Bool
  pub stop_requested : Bool
  pub server : ServerPc
  pub handler : HandlerPc

-- Why a step is taken: by the code of a thread, by a signal, or since the network fails.
pub data Cause : Type 0 where
  own : Cause
  signal : Cause
  failure : Cause

-- A step of one of the threads. The library makes `listen_and_serve` return after `server.stop()`, if this
-- is called while it serves, or when it fails; it does not say what a stop before that does, so such a stop
-- may be kept or lost.
pub data Step : Cause → State → State → Type 0 where
  set_running :
      {b r : Bool} {h : HandlerPc}
      → Step own
          (record { running_server = b; stop_requested = r; server = starting; handler = h })
          (record { running_server = true; stop_requested = r; server = serving; handler = h })
  listen_and_serve_returns :
      {b : Bool} {h : HandlerPc}
      → Step own
          (record { running_server = b; stop_requested = true; server = serving; handler = h })
          (record { running_server = b; stop_requested = true; server = returned; handler = h })
  listen_and_serve_fails :
      {b r : Bool} {h : HandlerPc}
      → Step failure
          (record { running_server = b; stop_requested = r; server = serving; handler = h })
          (record { running_server = b; stop_requested = r; server = returned; handler = h })
  reset_running :
      {b r : Bool} {h : HandlerPc}
      → Step own
          (record { running_server = b; stop_requested = r; server = returned; handler = h })
          (record { running_server = false; stop_requested = r; server = ended; handler = h })
  server_stop :
      {b r r' : Bool} {p : ServerPc}
      → (p ≡ starting) ⊎ (r' ≡ true)
      → Step signal
          (record { running_server = b; stop_requested = r; server = p; handler = idle })
          (record { running_server = b; stop_requested = r'; server = p; handler = waiting })
  sleep :
      {r : Bool} {p : ServerPc}
      → Step own
          (record { running_server = true; stop_requested = r; server = p; handler = waiting })
          (record { running_server = true; stop_requested = r; server = p; handler = waiting })
  leave_loop :
      {r : Bool} {p : ServerPc}
      → Step own
          (record { running_server = false; stop_requested = r; server = p; handler = waiting })
          (record { running_server = false; stop_requested = r; server = p; handler = stopped })
  delete_server :
      {b r : Bool} {p : ServerPc}
      → Step own
          (record { running_server = b; stop_requested = r; server = p; handler = stopped })
          (record { running_server = b; stop_requested = r; server = p; handler = deleted })

-- The states that can be reached from one.
pub data Reach (s : State) : State → Type 0 where
  here : Reach s s
  later : {c : Cause} {t u : State} → Reach s t → Step c t u → Reach s u

-- The object as `main` leaves it when it has created the thread: the constructor does not set
-- `running_server`.
abbrev pub created : Bool → State
created b = record { running_server = b; stop_requested = false; server = starting; handler = idle }
