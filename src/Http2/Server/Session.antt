-- ===== src/Http2/Server/Session.antt =====
-- Requests in sequence: the configuration that the callbacks share never changes.
use oai_cn5g_nssf.Base.{
  ℕ, String, ◌≡◌, refl, ap, ◌∙◌, subst, Bool, true, false, inl, inr, List, [], ◌∷◌, Any, All, ◌==◌,
  nat_equality, string_equality, ltb, ◌&&◌, if◌then◌else◌, not,
}
use oai_cn5g_nssf.Model.{Model}
use oai_cn5g_nssf.Config.{NssfConfig}
use oai_cn5g_nssf.Server.{Sbi}
use oai_cn5g_nssf.Server.Action.{
  json_error, http_error, std_error, Action, Result, ok, thrown, pure, lift, handle, try_catch,
  continue, Result-cases, ◌>>=◌,
}
use oai_cn5g_nssf.Selection.Handlers.{is_empty}
use oai_cn5g_nssf.Http2.Handlers.{Event, create_nssai_availability_handler}
use oai_cn5g_nssf.Http2.Handlers.Availability.{create_nssai_availability_reply}
use oai_cn5g_nssf.Http2.Routes.{catch_json, last_part, on_nssai_availability}
use oai_cn5g_nssf.Http2.Server.{Request, Data, reads, Handle, start_handles, on_body, config_after}

module _ (m : Model) (sbi : Sbi m) where
  -- The action, if it returns, returns the given configuration.
  unfoldable pub Keeps : NssfConfig m → Action Event (NssfConfig m) → Type 0
  Keeps cfg act = (es : List Event) → config_after m sbi cfg (act es).0 ≡ cfg

  reads-Keeps :
      (act : NssfConfig m → Request → Action Event (Unit {0})) (cfg : NssfConfig m)
      (request : Request) (chunk : Data)
      → Keeps cfg (reads m sbi act cfg request chunk)
  unfolding Keeps
  reads-Keeps act cfg request chunk es = elim (Result-cases (act cfg request es).0) [
    | inl (u, e) ↦ rw e refl
    | inr (x, e) ↦ rw e refl
  ]

  handled-Keeps :
      (cfg : NssfConfig m) (r : Result (NssfConfig m)) (es : List Event)
      → config_after m sbi cfg r ≡ cfg
      → config_after m sbi cfg (handle r (catch_json m sbi cfg) es).0 ≡ cfg
  unfolding Keeps
  handled-Keeps cfg (ok cfg') es h = h
  handled-Keeps cfg (thrown (json_error s)) es h = refl
  handled-Keeps cfg (thrown (http_error code s)) es h = refl
  handled-Keeps cfg (thrown (std_error s)) es h = refl

  catch_json-Keeps :
      (cfg : NssfConfig m) (act : Action Event (NssfConfig m))
      → Keeps cfg act
      → Keeps cfg (try_catch act (catch_json m sbi cfg))
  unfolding Keeps
  catch_json-Keeps cfg act keeps es = handled-Keeps cfg (act es).0 (act es).1 (keeps es)

  pure-Keeps : (cfg : NssfConfig m) → Keeps cfg (pure cfg)
  unfolding Keeps
  pure-Keeps cfg es = refl

  lift-Keeps :
      {A : Type 0} (cfg : NssfConfig m) (r : Result A) (next : A → Action Event (NssfConfig m))
      → ((a : A) → Keeps cfg (next a))
      → Keeps cfg (lift r >>= next)
  unfolding Keeps
  lift-Keeps cfg (ok a) next h es = h a es
  lift-Keeps cfg (thrown x) next h es = refl

  if-Keeps :
      (cfg : NssfConfig m) (c : Bool) (act act' : Action Event (NssfConfig m))
      → Keeps cfg act
      → Keeps cfg act'
      → Keeps cfg (if c then act else act')
  unfolding Keeps
  if-Keeps cfg true act act' h h' = h
  if-Keeps cfg false act act' h h' = h'

  continue-Keeps :
      (cfg : NssfConfig m) (r : Result (NssfConfig m))
      (next : NssfConfig m → Action Event (NssfConfig m)) (es : List Event)
      → config_after m sbi cfg r ≡ cfg
      → Keeps cfg (next cfg)
      → config_after m sbi cfg (continue r next es).0 ≡ cfg
  unfolding Keeps
  continue-Keeps cfg (ok cfg') next es e h = rw e (h es)
  continue-Keeps cfg (thrown x) next es e h = refl

  -- What follows an action that keeps the configuration gets it.
  then-Keeps :
      (cfg : NssfConfig m) (act : Action Event (NssfConfig m))
      (next : NssfConfig m → Action Event (NssfConfig m))
      → Keeps cfg act
      → Keeps cfg (next cfg)
      → Keeps cfg (act >>= next)
  unfolding Keeps
  then-Keeps cfg act next h h' es = continue-Keeps cfg (act es).0 next (act es).1 (h es) h'

  create-Keeps :
      (cfg : NssfConfig m) (nf_id : String) (info : m.AvailabilityInfo)
      → Keeps cfg (create_nssai_availability_handler m sbi cfg nf_id info)
  unfolding Keeps
  create-Keeps cfg nf_id info es =
      let (code, content_type, body, sends, tells, kind) =
        create_nssai_availability_reply m sbi cfg nf_id info in
      rw (sends es) refl

  on_nssai_availability-Keeps :
      (cfg : NssfConfig m) (method path msg : String) (len : ℕ)
      → Keeps cfg (on_nssai_availability m sbi cfg method path msg len)
  unfolding on_nssai_availability
  on_nssai_availability-Keeps cfg method path msg len =
      let nf_id = last_part (sbi.split_path path) in
      let patch = λ (cfg' : NssfConfig m).
        if method == "PATCH" && ltb 0 len
        then (do items ← lift (sbi.parse_patch_items msg); pure cfg')
        else pure cfg' in
      catch_json-Keeps cfg _ (
        if-Keeps cfg (not (is_empty nf_id)) _ _
          (then-Keeps cfg _ patch
            (if-Keeps cfg (method == "PUT" && ltb 0 len) _ _
              (lift-Keeps cfg (sbi.parse_availability msg) _ (create-Keeps cfg nf_id))
              (pure-Keeps cfg))
            (if-Keeps cfg (method == "PATCH" && ltb 0 len) _ _
              (lift-Keeps cfg (sbi.parse_patch_items msg) _ (λ items. pure-Keeps cfg))
              (pure-Keeps cfg)))
          (pure-Keeps cfg))

  -- The callback keeps every configuration.
  abbrev HandleKeeps : Handle m sbi → Type 0
  HandleKeeps handle =
      (cfg : NssfConfig m) (request : Request) (chunk : Data)
      → Keeps cfg (handle.on_data cfg request chunk)

  start_handles-Keeps : All HandleKeeps (start_handles m sbi)
  unfolding start_handles
  start_handles-Keeps = (
    reads-Keeps _,
    (
      (λ cfg request chunk.
          on_nssai_availability-Keeps cfg request.method request.path chunk.msg chunk.len),
      (reads-Keeps _, (reads-Keeps _, (reads-Keeps _, tt))),
    ),
  )

  on_body-Keeps :
      (handle : Handle m sbi)
      → HandleKeeps handle
      → (cfg : NssfConfig m) (request : Request) (body : List Data)
      → Keeps cfg (on_body m sbi handle.on_data cfg request body)
  unfolding on_body
  on_body-Keeps handle keeps cfg request [] = pure-Keeps cfg
  on_body-Keeps handle keeps cfg request (chunk ∷ rest) =
      then-Keeps cfg _ (λ cfg'. on_body m sbi handle.on_data cfg' request rest)
        (keeps cfg request chunk) (on_body-Keeps handle keeps cfg request rest)

  -- One request to the running server: its body comes in parts to the callback of some handle, which
  -- may write to the configuration.
  pub data Step (cfg : NssfConfig m) : NssfConfig m → Type 0 where
    request :
        (handle : Handle m sbi) (r : Request) (body : List Data) (es : List Event)
        → Any (λ h. h ≡ handle) (start_handles m sbi)
        → Step cfg (config_after m sbi cfg (on_body m sbi handle.on_data cfg r body es).0)

  -- The configurations that the server, started with one, can come to.
  pub data Reach (initial : NssfConfig m) : NssfConfig m → Type 0 where
    started : Reach initial initial
    later : {cfg cfg' : NssfConfig m} → Reach initial cfg → Step cfg cfg' → Reach initial cfg'

  kept_by :
      (handle : Handle m sbi) (handles : List (Handle m sbi))
      → All HandleKeeps handles
      → Any (λ h. h ≡ handle) handles
      → HandleKeeps handle
  kept_by handle [] all found = absurd found
  kept_by handle (h ∷ handles) (keeps, all) (inl e) = subst HandleKeeps e keeps
  kept_by handle (h ∷ handles) (keeps, all) (inr found) = kept_by handle handles all found

  Step-eq : {cfg cfg' : NssfConfig m} → Step cfg cfg' → cfg' ≡ cfg
  unfolding Keeps
  Step-eq {cfg} (request handle r body es found) =
      on_body-Keeps handle (kept_by handle _ start_handles-Keeps found) cfg r body es

  -- However many requests the HTTP/2 server has handled, for whatever methods and paths, with whatever
  -- bodies and whether or not they failed, its configuration is the one that it was started with.
  pub config_unchanged : {initial cfg : NssfConfig m} → Reach initial cfg → cfg ≡ initial
  config_unchanged started = refl
  config_unchanged (later before step) = Step-eq step ∙ config_unchanged before

  -- So what a request is answered does not depend on the requests before it.
  pub replies_without_history :
      {initial cfg : NssfConfig m}
      → Reach initial cfg
      → (handle : Handle m sbi) (r : Request) (body : List Data) (es : List Event)
      → on_body m sbi handle.on_data cfg r body es ≡ on_body m sbi handle.on_data initial r body es
  replies_without_history reach handle r body es =
      ap (λ cfg. on_body m sbi handle.on_data cfg r body es) (config_unchanged reach)
