-- ===== src/Http1/Routes/Dispatch.antt =====
-- What becomes of a request to the HTTP/1 server: from its method and path to the reply.
use oai_cn5g_nssf.Base.{
  String, ◌≡◌, refl, subst, true, false, Option, some, List, [], ◌∷◌, ◌++◌, Any, All, inl, inr,
  append, arith,
}
use oai_cn5g_nssf.Model.{Model}
use oai_cn5g_nssf.Config.{NssfConfig}
use oai_cn5g_nssf.Server.{Sbi}
use oai_cn5g_nssf.Server.Action.{ok}
use oai_cn5g_nssf.Http1.Pistache.{Event, send_reply, Pistache}
use oai_cn5g_nssf.Http1.Operations.{NssfApis}
use oai_cn5g_nssf.Http1.Api.Once.{RepliesOnce, leaving-RepliesOnce}
use oai_cn5g_nssf.Http1.Api.Handlers.{AllReply, every_handler}
use oai_cn5g_nssf.Http1.Api.{
  default_handler, n_s_selection_get_handler, n_ssai_availability_put_handler,
  n_ssai_availability_sub_modify_patch_handler,
}
use oai_cn5g_nssf.Http1.Routes.{
  Method, http_get, http_put, http_patch, http_delete, Call, add_route, add_custom_handler, Handler,
  reading, availability_path,
}
use oai_cn5g_nssf.Http1.Routes.Setup.{
  init, nf_instance_id_document, subscription_id_document, subscriptions_collection,
  nssai_availability_store, network_slice_information_document, nssf_slice_config,
}
use oai_cn5g_nssf.Http1.Routes.Router.{Brings, Routes, Router}
use oai_cn5g_nssf.Http1.Server.{nssf_api_server, nssf_api_server-Answers}
use oai_cn5g_nssf.Http1.Server.Put.{PutReplies, put_handler-PutReplies}
use oai_cn5g_nssf.Http1.Server.Selection.{SelectionReplies}
use oai_cn5g_nssf.Http1.Server.Selection.Handler.{selection_handler-SelectionReplies}

module _ (m : Model) (sbi : Sbi m) (p : Pistache m) where
  -- The handler of a call replies once to the request, and leaves the configuration as it was.
  abbrev CallReplies : NssfConfig m → p.Request → Call (Handler m sbi p) → Type 0
  CallReplies cfg request (add_route method pattern h) = RepliesOnce cfg (h cfg request)
  CallReplies cfg request (add_custom_handler h) = RepliesOnce cfg (h cfg request)

  brought :
      (cfg : NssfConfig m) (request : p.Request) (h : Handler m sbi p)
      (calls : List (Call (Handler m sbi p)))
      → All (CallReplies cfg request) calls
      → Any (Brings h) calls
      → RepliesOnce cfg (h cfg request)
  brought cfg request h [] all found = absurd found
  brought cfg request h (add_route method pattern g ∷ calls) (first, rest) (inl e) =
      subst (λ k. RepliesOnce cfg (k cfg request)) e first
  brought cfg request h (add_custom_handler g ∷ calls) (first, rest) (inl e) =
      subst (λ k. RepliesOnce cfg (k cfg request)) e first
  brought cfg request h (c ∷ calls) (first, rest) (inr later) =
      brought cfg request h calls rest later

  every_call :
      (cfg : NssfConfig m) (apis : NssfConfig m → NssfApis m sbi p) (request : p.Request)
      → AllReply m sbi p cfg (apis cfg) request
      → All (CallReplies cfg request) (init m sbi p apis)
  unfolding init nf_instance_id_document subscription_id_document subscriptions_collection
      nssai_availability_store network_slice_information_document nssf_slice_config
  every_call cfg apis request
        (
          selection, put, delete, patch, sub_modify, unsubscribe, post, options, slice_config,
          api_list, default,
        ) =
      let missing = leaving-RepliesOnce cfg _ default in
      let deletes = leaving-RepliesOnce cfg _ delete in
      let patches = leaving-RepliesOnce cfg _ patch in
      let modifies = leaving-RepliesOnce cfg _ sub_modify in
      let unsubscribes = leaving-RepliesOnce cfg _ unsubscribe in
      let posts = leaving-RepliesOnce cfg _ post in
      let tells = leaving-RepliesOnce cfg _ options in
      let selects = leaving-RepliesOnce cfg _ selection in
      let lists = leaving-RepliesOnce cfg _ api_list in
      let configures = leaving-RepliesOnce cfg _ slice_config in ground arith

  module _ (router : Router) where
    -- The handler that the router calls for a method and a path.
    abbrev pub dispatch : Method → String → Option (Handler m sbi p)
    dispatch = router.dispatch (init m sbi p (nssf_api_server m sbi p))

    -- Whatever the method, the path and the content of a request: if the router calls a handler for it,
    -- then it is answered exactly once, without an exception, and the configuration stays as it was.
    pub dispatched-RepliesOnce :
        (cfg : NssfConfig m) (method : Method) (path : String) (request : p.Request)
        (h : Handler m sbi p)
        → dispatch method path ≡ some h
        → RepliesOnce cfg (h cfg request)
    dispatched-RepliesOnce cfg method path request h e =
        let answers = nssf_api_server-Answers m sbi p cfg in
        let all = every_call cfg _ request (every_handler m sbi p cfg _ answers request) in
        brought cfg request h _ all (router.dispatch_brings _ method path h e)

    -- What answers a request that no route for its method matches.
    abbrev pub NotFound : Method → String → Type 0
    NotFound method path =
        (h : Handler m sbi p) × (dispatch method path ≡ some h)
        × ((cfg : NssfConfig m) (request : p.Request) (es : List Event)
            → h cfg request es
              ≡ (ok cfg, es ++ send_reply 404 (some "The requested method does not exist") ∷ []))

    -- A request that no route for its method matches is answered with 404.
    pub unmatched-NotFound :
        (method : Method) (path : String)
        → ¬ Any
            (Routes method (λ pattern. router.matches pattern path))
            (init m sbi p (nssf_api_server m sbi p))
        → NotFound method path
    unfolding init nf_instance_id_document default_handler
    unmatched-NotFound method path no_route =
        (_, router.dispatch_unmatched _ method path no_route, (λ cfg request es. refl))

    -- At the path of a subscription with the API version, if it matches neither the route of NSSAI
    -- availability nor the path without the version, the subscription can be modified, but not deleted:
    -- PATCH goes to the handler of modifications, and DELETE is answered with 404.
    pub versioned_unsubscribe-NotFound :
        (path : String)
        → router.matches (availability_path m sbi p sbi.subscription_id_path) path ≡ true
        → router.matches (availability_path m sbi p "/nssai-availability/:nfId") path ≡ false
        → router.matches (append sbi.availability_base sbi.subscription_id_path) path ≡ false
        → (dispatch http_patch path
            ≡ some (
                reading m sbi p (λ cfg.
                  n_ssai_availability_sub_modify_patch_handler m sbi p
                    (nssf_api_server m sbi p cfg).subscription_id_document)))
          × NotFound http_delete path
    unfolding init nf_instance_id_document subscription_id_document subscriptions_collection
        nssai_availability_store network_slice_information_document nssf_slice_config
    versioned_unsubscribe-NotFound path modifies not_store not_bare = (
      router.dispatch_route _ http_patch path _ (ground (arith, modifies)) (ground arith),
      unmatched-NotFound http_delete path (ground arith),
    )

    -- A PUT to a path of NSSAI availability is answered in one of three ways: 500 if the path has no
    -- ID; 400 if the body is not the JSON text of such data, or 500 if it fails in another way;
    -- otherwise with problem details, in which no attribute is set, and the status code that the application gives: 204 exactly if the
    -- request names an AMF set of the configuration, 0 exactly if the name that it gives is empty, 503
    -- otherwise. The configuration stays as it was.
    pub put_request-PutReplies :
        (path : String) (cfg : NssfConfig m) (request : p.Request) (es : List Event)
        → router.matches (availability_path m sbi p "/nssai-availability/:nfId") path ≡ true
        → (h : Handler m sbi p) × (sent : List Event) × (dispatch http_put path ≡ some h)
          × (h cfg request es ≡ (ok cfg, es ++ sent))
          × PutReplies m sbi p cfg request sent
    unfolding init nf_instance_id_document subscription_id_document subscriptions_collection
        nssai_availability_store network_slice_information_document nssf_slice_config
    put_request-PutReplies path cfg request es here =
        let (sent, e, replies) = put_handler-PutReplies m sbi p cfg request es in
        let handle = λ (c : NssfConfig m).
          n_ssai_availability_put_handler m sbi p
            (nssf_api_server m sbi p c).nf_instance_id_document c in
        (
          handle,
          sent,
          router.dispatch_route _ http_put path handle (inr (inr (inl (refl, here))))
              (ground arith),
          e,
          replies,
        )

    -- The handler for slice selection is called for a GET at its path, if this matches neither of the
    -- routes of the slice configuration.
    pub selection_route :
        (path : String)
        → router.matches
            (append
              (append sbi.ns_selection_base sbi.api_version)
              sbi.network_slice_information_path)
            path
          ≡ true
        → router.matches "/" path ≡ false
        → router.matches (append "/" "nnssf-slice-config") path ≡ false
        → dispatch http_get path
          ≡ some (
              reading m sbi p (λ cfg.
                n_s_selection_get_handler m sbi p
                  (nssf_api_server m sbi p cfg).network_slice_information_document))
    unfolding init nf_instance_id_document subscription_id_document subscriptions_collection
        nssai_availability_store network_slice_information_document nssf_slice_config
    selection_route path here not_list not_config =
        router.dispatch_route _ http_get path _ (ground (arith, here)) (ground arith)

    -- A GET of the network slice information, at a path that matches neither the route of the list of
    -- APIs nor that of the slice configuration, is answered in one of three ways: 500 if one of its
    -- query parameters cannot be converted (one of the last three only if it does not ask for a UE
    -- configuration update); 404 if the first five can be and it does ask for such an update; and if
    -- all eight can be and it does not, 400 without an NF type, and otherwise the status code of slice
    -- selection for a registration or a PDU session alone, 0 if it asks for neither, and for both that
    -- of the registration, unless slice selection says nothing about this, and then that of the PDU
    -- session. The configuration stays as it was.
    pub selection_request-Replies :
        (path : String) (cfg : NssfConfig m) (request : p.Request) (es : List Event)
        → router.matches
            (append
              (append sbi.ns_selection_base sbi.api_version)
              sbi.network_slice_information_path)
            path
          ≡ true
        → router.matches "/" path ≡ false
        → router.matches (append "/" "nnssf-slice-config") path ≡ false
        → (h : Handler m sbi p) × (sent : List Event) × (dispatch http_get path ≡ some h)
          × (h cfg request es ≡ (ok cfg, es ++ sent))
          × SelectionReplies m sbi p request cfg sent
    selection_request-Replies path cfg request es here not_list not_config =
        let (sent, e, replies) = selection_handler-SelectionReplies m sbi p cfg request es in
        (_, sent, selection_route path here not_list not_config, rw e refl, replies)
