-- ===== src/Http1/Routes/Sequence.antt =====
-- Requests to the HTTP/1 server in sequence: the configuration that the operations share never changes.
use oai_cn5g_nssf.Base.{String, ◌≡◌, refl, ◌∙◌, some, List}
use oai_cn5g_nssf.Model.{Model}
use oai_cn5g_nssf.Config.{NssfConfig}
use oai_cn5g_nssf.Server.{Sbi}
use oai_cn5g_nssf.Server.Action.{Result, ok, thrown}
use oai_cn5g_nssf.Http1.Pistache.{Event, Pistache}
use oai_cn5g_nssf.Http1.Api.Once.{RepliesOnce}
use oai_cn5g_nssf.Http1.Routes.{Method, Handler}
use oai_cn5g_nssf.Http1.Routes.Router.{Router}
use oai_cn5g_nssf.Http1.Routes.Dispatch.{dispatch, dispatched-RepliesOnce}

module _ (m : Model) (sbi : Sbi m) (p : Pistache m) (router : Router) where
  -- The configuration after a handler: what it returns, or what it got if it throws.
  abbrev left : NssfConfig m → Result (NssfConfig m) → NssfConfig m
  left cfg (ok cfg') = cfg'
  left cfg (thrown x) = cfg

  -- One request for which the router calls a handler.
  pub data Step (cfg : NssfConfig m) : NssfConfig m → Type 0 where
    request :
        (method : Method) (path : String) (r : p.Request) (h : Handler m sbi p) (es : List Event)
        → dispatch m sbi p router method path ≡ some h
        → Step cfg (left cfg (h cfg r es).0)

  -- The configurations that the server, started with one, can come to.
  pub data Reach (initial : NssfConfig m) : NssfConfig m → Type 0 where
    started : Reach initial initial
    later : {cfg cfg' : NssfConfig m} → Reach initial cfg → Step cfg cfg' → Reach initial cfg'

  Step-eq : {cfg cfg' : NssfConfig m} → Step cfg cfg' → cfg' ≡ cfg
  unfolding RepliesOnce
  Step-eq {cfg} (request method path r h es e) =
      let (sent, ends, _) = dispatched-RepliesOnce m sbi p router cfg method path r h e es in
      rw ends refl

  pub Reach-eq : {initial cfg : NssfConfig m} → Reach initial cfg → cfg ≡ initial
  Reach-eq started = refl
  Reach-eq (later before step) = Step-eq step ∙ Reach-eq before
