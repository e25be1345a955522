-- ===== src/Http2/Routes/Extend.antt =====
-- The callback for slice selection under a configuration to which entries are added.
use oai_cn5g_nssf.Base.{
  ap, ℕ, String, ◌≡◌, refl, sym, ap, ◌∙◌, Bool, true, false, not, Bool-cases, inl, inr, Option,
  none, List, [], ◌∷◌, ◌++◌, arith, ◌==◌, string_equality, nat_equality, if◌then◌else◌,
}
use oai_cn5g_nssf.Model.{Model}
use oai_cn5g_nssf.Config.{NssfConfig}
use oai_cn5g_nssf.Server.{Sbi, nf_type_param, home_plmn_id_param, tai_param}
use oai_cn5g_nssf.Server.Action.{
  json_error, http_error, std_error, Action, Result, ok, thrown, pure, lift, handle, try_catch,
  ◌>>=◌,
}
use oai_cn5g_nssf.Selection.Handlers.{is_empty}
use oai_cn5g_nssf.Selection.Handlers.Extend.{Extends, registration-Extends, session-Extends}
use oai_cn5g_nssf.App
use oai_cn5g_nssf.Http2.Handlers.{
  Event, write_head, end_body, is_served, get_slice_info_for_registration_handler,
  get_slice_info_for_pdu_session_handler, get_slice_info_for_ue_cu_handler,
  get_slice_info_default_handler,
}
use oai_cn5g_nssf.Http2.Handlers.Replies.{Sends, registration-RepliesWith, pdu_session-RepliesWith}
use oai_cn5g_nssf.Http2.Routes.{catch_json, parse_or, get_slice_information, on_slice_information}

-- The action, run first, sends one reply with 200.
abbrev pub Grants : Action Event (Unit {0}) → Option String → Option String → Type 0
Grants act content_type body = act [] ≡ (ok tt, write_head 200 content_type ∷ end_body body ∷ [])

-- What the first action grants, the second grants with the same reply, at any time.
unfoldable pub StaysGranted : Action Event (Unit {0}) → Action Event (Unit {0}) → Type 0
StaysGranted act act' =
    (content_type body : Option String)
    → Grants act content_type body
    → Sends act' 200 content_type body

never :
    (act act' : Action Event (Unit {0}))
    → ((content_type body : Option String) → ¬ Grants act content_type body)
    → StaysGranted act act'
unfolding StaysGranted
never act act' h content_type body g = absurd (h content_type body g)

pure_never : StaysGranted (pure tt) (pure tt)
pure_never = never _ _ (λ content_type body g. cc)

lift-StaysGranted :
    {A : Type 0} (r : Result A) (next next' : A → Action Event (Unit {0}))
    → ((a : A) → StaysGranted (next a) (next' a))
    → StaysGranted (lift r >>= next) (lift r >>= next')
unfolding StaysGranted
lift-StaysGranted (ok a) next next' h = h a
lift-StaysGranted (thrown x) next next' h = λ content_type body g. absurd (cc)

if-StaysGranted :
    (c : Bool) (f g f' g' : Action Event (Unit {0}))
    → StaysGranted f f'
    → StaysGranted g g'
    → StaysGranted (if c then f else g) (if c then f' else g')
if-StaysGranted true f g f' g' h k = h
if-StaysGranted false f g f' g' h k = k

module _ (m : Model) (sbi : Sbi m) where
  parse_or-StaysGranted :
      {A : Type 0} (a : A) (parse : String → Result A) (text : String)
      (next next' : A → Action Event (Unit {0}))
      → ((a : A) → StaysGranted (next a) (next' a))
      → StaysGranted (parse_or m sbi a parse text >>= next) (parse_or m sbi a parse text >>= next')
  parse_or-StaysGranted a parse text next next' h = elim (Bool-cases (is_empty text)) [
    | inl e ↦ rw e (h a)
    | inr e ↦ rw e (lift-StaysGranted (parse text) next next' h)
  ]

  -- The clause that catches errors in JSON texts replies with 400.
  caught_grants_nothing :
      (r : Result (Unit {0})) (sent : List Event) (content_type body : Option String)
      → handle r (catch_json m sbi tt) sent
        ≡ (ok tt, write_head 200 content_type ∷ end_body body ∷ [])
      → (r ≡ ok tt) × (sent ≡ write_head 200 content_type ∷ end_body body ∷ [])
  caught_grants_nothing (ok u) sent content_type body g = (refl, ap (λ p. p.1) g)
  caught_grants_nothing (thrown (http_error c s)) sent content_type body g = absurd (cc)
  caught_grants_nothing (thrown (std_error s)) sent content_type body g = absurd (cc)
  caught_grants_nothing (thrown (json_error s)) [] content_type body g =
      let e : m.status.bad_request ≡ 200 = cc in absurd (omega (arith, m.status.is_400))
  caught_grants_nothing (thrown (json_error s)) (e ∷ []) content_type body g = absurd (cc)
  caught_grants_nothing (thrown (json_error s)) (e ∷ f ∷ []) content_type body g = absurd (cc)
  caught_grants_nothing (thrown (json_error s)) (e ∷ f ∷ f' ∷ sent) content_type body g =
      absurd (cc)

  try_catch-StaysGranted :
      (act act' : Action Event (Unit {0}))
      → StaysGranted act act'
      → StaysGranted (try_catch act (catch_json m sbi tt)) (try_catch act' (catch_json m sbi tt))
  unfolding StaysGranted
  try_catch-StaysGranted act act' h content_type body g es =
      let (e, f) = caught_grants_nothing (act []).0 (act []).1 content_type body g in
      let granted : Grants act content_type body = λ i. (e i, f i) in
      rw (h content_type body granted es) refl

  -- A handler that sends one reply: one with 200 goes to a consumer that is served.
  granted_reply :
      (act : Action Event (Unit {0})) (sent code : ℕ) (nf_type : String)
      (kind b content_type body : Option String)
      → Sends act sent kind b
      → (is_served nf_type ≡ true → sent ≡ code)
      → (is_served nf_type ≡ false → (sent ≡ 400) × (b ≡ none))
      → Grants act content_type body
      → (code ≡ 200) × Sends act 200 content_type body
  granted_reply act sent code nf_type kind b content_type body sends same bad g =
      let e : ◌≡◌ {A = Result (Unit {0}) × List Event}
          (ok tt, write_head sent kind ∷ end_body b ∷ [])
          (ok tt, write_head 200 content_type ∷ end_body body ∷ []) =
        sym (sends []) ∙ g in
      let is_200 : sent ≡ 200 = cc in
      let is_kind : kind ≡ content_type = cc in
      let is_body : b ≡ body = cc in
      (
        elim (Bool-cases (is_served nf_type)) [
          | inl served ↦ sym (same served) ∙ is_200
          | inr not_served ↦ absurd (omega (arith, is_200, (bad not_served).0))
        ],
        λ es. sends es ∙ (rw (is_200, is_kind, is_body) refl),
      )

  module _ (cfg cfg' : NssfConfig m) (ext : Extends m cfg cfg') (nf_type : String)
      (tai : m.location.Tai) (home : m.location.PlmnId) where
    registration-StaysGranted :
        (info : m.RegistrationInfo)
        → StaysGranted
            (get_slice_info_for_registration_handler m sbi cfg nf_type info tai home)
            (get_slice_info_for_registration_handler m sbi cfg' nf_type info tai home)
    unfolding StaysGranted get_slice_info_for_registration_handler
        App.handle_slice_info_for_registration
    registration-StaysGranted info content_type body g =
        let (sent, b, sends, same, bad, full) =
          registration-RepliesWith m sbi cfg nf_type info tai home in
        let (granted, again) =
          granted_reply _ sent _ nf_type _ b content_type body sends same bad g in
        rw (registration-Extends m cfg cfg' ext tai home info m.auth.init granted) again

    session-StaysGranted :
        (info : m.PduSessionInfo)
        → StaysGranted
            (get_slice_info_for_pdu_session_handler m sbi cfg nf_type info tai home)
            (get_slice_info_for_pdu_session_handler m sbi cfg' nf_type info tai home)
    unfolding StaysGranted get_slice_info_for_pdu_session_handler
        App.handle_slice_info_for_pdu_session
    session-StaysGranted info content_type body g =
        let (sent, b, sends, same, bad, full) =
          pdu_session-RepliesWith m sbi cfg nf_type info tai home in
        let (granted, again) =
          granted_reply _ sent _ nf_type _ b content_type body sends same bad g in
        rw (session-Extends m cfg cfg' ext tai home info 0 m.auth.init granted) again

  ue_cu_never :
      (nf_type : String) (info : sbi.SliceInfoForUeCu) (tai : m.location.Tai)
      (home : m.location.PlmnId)
      → let act = get_slice_info_for_ue_cu_handler m sbi nf_type info tai home in
        StaysGranted act act
  unfolding get_slice_info_for_ue_cu_handler
  ue_cu_never nf_type info tai home = never _ _ (λ content_type body g.
      let e : m.status.service_unavailable ≡ 200 = cc in omega (arith, m.status.is_503))

  default_never :
      (nf_type : String) (tai : m.location.Tai) (home : m.location.PlmnId)
      → let act = get_slice_info_default_handler m sbi nf_type tai home in StaysGranted act act
  unfolding get_slice_info_default_handler
  default_never nf_type tai home = pure_never

  module _ (cfg cfg' : NssfConfig m) (ext : Extends m cfg cfg') where
    information-StaysGranted :
        (qs : String)
        → let ue_cu = get_slice_info_for_ue_cu_handler m sbi in
          StaysGranted
            (get_slice_information m sbi ue_cu cfg qs)
            (get_slice_information m sbi ue_cu cfg' qs)
    unfolding get_slice_information
    information-StaysGranted qs =
        let nf_type = sbi.get_query_param qs nf_type_param in
        let reg = sbi.get_query_param qs sbi.registration_param in
        let session = sbi.get_query_param qs sbi.pdu_session_param in
        let home_text = sbi.get_query_param qs home_plmn_id_param in
        let tai_text = sbi.get_query_param qs tai_param in
        parse_or-StaysGranted m.location.plmn_id_init sbi.parse_plmn_id home_text _ _ (λ home.
          parse_or-StaysGranted m.location.tai_init sbi.parse_tai tai_text _ _ (λ tai.
            if-StaysGranted (not (is_empty reg)) _ _ _ _
              (lift-StaysGranted (sbi.parse_registration reg) _ _
                (registration-StaysGranted cfg cfg' ext nf_type tai home))
              (if-StaysGranted (not (is_empty session)) _ _ _ _
                (lift-StaysGranted (sbi.parse_pdu_session session) _ _
                  (session-StaysGranted cfg cfg' ext nf_type tai home))
                (if-StaysGranted (not (is_empty reg)) _ _ _ _
                  (lift-StaysGranted (sbi.parse_ue_cu reg) _ _
                    (λ info. ue_cu_never nf_type info tai home))
                  (default_never nf_type tai home)))))

    callback-StaysGranted :
        (method qs : String)
        → StaysGranted
            (on_slice_information m sbi cfg method qs)
            (on_slice_information m sbi cfg' method qs)
    unfolding on_slice_information
    callback-StaysGranted method qs =
        let ue_cu = get_slice_info_for_ue_cu_handler m sbi in
        let information = get_slice_information m sbi ue_cu cfg qs in
        let information' = get_slice_information m sbi ue_cu cfg' qs in
        let nothing : Action Event (Unit {0}) = pure tt in
        try_catch-StaysGranted (if method == "GET" then information else nothing)
          (if method == "GET" then information' else nothing)
          (if-StaysGranted (method == "GET") information nothing information' nothing
            (information-StaysGranted qs) pure_never)

    -- Entries that are added behind those of a configuration take nothing away: a request for slice
    -- selection that the HTTP/2 server grants is granted with them too, with the same reply.
    pub granted_stays :
        (method qs : String) (content_type body : Option String)
        → on_slice_information m sbi cfg method qs []
          ≡ (ok tt, write_head 200 content_type ∷ end_body body ∷ [])
        → (es : List Event)
        → on_slice_information m sbi cfg' method qs es
          ≡ (ok tt, es ++ write_head 200 content_type ∷ end_body body ∷ [])
    unfolding StaysGranted
    granted_stays method qs = callback-StaysGranted method qs
