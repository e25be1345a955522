-- ===== src/Http1/Endpoint.antt =====
-- The calls of Pistache that `NSSFApiServer::init`, `start` and `shutdown` make, in their order
-- (src/api-server/nssf-api-server.cpp). Their results are not used.
use oai_cn5g_nssf.Base.{ℕ, ◌≡◌, refl, ap, Bool, true, List, [], ◌∷◌, ◌++◌}
use oai_cn5g_nssf.Model.{Model}
use oai_cn5g_nssf.Config.{NssfConfig}
use oai_cn5g_nssf.Server.{Sbi}
use oai_cn5g_nssf.Http1.Pistache.{Pistache}
use oai_cn5g_nssf.Http1.Operations.{NssfApis}
use oai_cn5g_nssf.Http1.Routes.{Call, Handler}
use oai_cn5g_nssf.Http1.Routes.Setup.{init}

-- `Endpoint::options`, with what is set.
pub record EndpointOptions : Type 0 where
  pub threads : ℕ
  pub reuse_addr : Bool
  pub max_request_size : ℕ

pub data ServerCall (H : Type 0) : Type 0 where
  endpoint_init : EndpointOptions → ServerCall H
  route : Call H → ServerCall H
  set_handler : ServerCall H
  serve : ServerCall H
  endpoint_shutdown : ServerCall H

abbrev pub pistache_server_max_payload : ℕ
pistache_server_max_payload = 32768

abbrev pub routed : {H : Type 0} → List (Call H) → List (ServerCall H)
routed [] = []
routed (c ∷ calls) = route c ∷ routed calls

module _ (m : Model) (sbi : Sbi m) (p : Pistache m) where
  -- `NSSFApiServer::init`, with the number of threads.
  unfoldable pub init_endpoint :
      ℕ → (NssfConfig m → NssfApis m sbi p) → List (ServerCall (Handler m sbi p))
  init_endpoint thr apis =
      endpoint_init (record {
        threads = thr;
        reuse_addr = true;
        max_request_size = pistache_server_max_payload;
      })
      ∷ routed (init m sbi p apis)

  unfoldable pub start_endpoint : List (ServerCall (Handler m sbi p))
  start_endpoint = set_handler ∷ serve ∷ []

  unfoldable pub shutdown_endpoint : List (ServerCall (Handler m sbi p))
  shutdown_endpoint = endpoint_shutdown ∷ []

-- The routes among the calls.
abbrev pub routes_of : {H : Type 0} → List (ServerCall H) → List (Call H)
routes_of [] = []
routes_of (route c ∷ calls) = c ∷ routes_of calls
routes_of (endpoint_init o ∷ calls) = routes_of calls
routes_of (set_handler ∷ calls) = routes_of calls
routes_of (serve ∷ calls) = routes_of calls
routes_of (endpoint_shutdown ∷ calls) = routes_of calls

-- The calls up to the first that serves; all of them if none does.
abbrev pub before_serve : {H : Type 0} → List (ServerCall H) → List (ServerCall H)
before_serve [] = []
before_serve (serve ∷ calls) = []
before_serve (route c ∷ calls) = route c ∷ before_serve calls
before_serve (endpoint_init o ∷ calls) = endpoint_init o ∷ before_serve calls
before_serve (set_handler ∷ calls) = set_handler ∷ before_serve calls
before_serve (endpoint_shutdown ∷ calls) = endpoint_shutdown ∷ before_serve calls

module _ {H : Type 0} where
  routes_of-before_serve-routed :
      (calls : List (Call H))
      → routes_of (before_serve (routed calls ++ set_handler ∷ serve ∷ [])) ≡ calls
  routes_of-before_serve-routed [] = refl
  routes_of-before_serve-routed (c ∷ calls) = ap (λ l. c ∷ l) (routes_of-before_serve-routed calls)

-- When the endpoint serves, the router has got all routes and default handlers, in their order.
pub routed_before_serve :
    (m : Model) (sbi : Sbi m) (p : Pistache m) (thr : ℕ) (apis : NssfConfig m → NssfApis m sbi p)
    → routes_of (before_serve (init_endpoint m sbi p thr apis ++ start_endpoint m sbi p))
      ≡ init m sbi p apis
unfolding init_endpoint start_endpoint
routed_before_serve m sbi p thr apis = routes_of-before_serve-routed (init m sbi p apis)
