-- ===== src/Http1/Api/Once.antt =====
-- Every request to the HTTP/1 server is answered exactly once.
use mathlib.Core.List.{append_assoc}
use oai_cn5g_nssf.Base.{
  ℕ, String, ◌≡◌, refl, ap, ◌⊎◌, inl, inr, Option, none, some, List, [], ◌∷◌, ◌++◌,
}
use oai_cn5g_nssf.Server.Action.{
  Exception, json_error, http_error, std_error, Result, ok, thrown, Action, lift, emit, try_catch,
  ◌>>=◌,
}
use oai_cn5g_nssf.Http1.Pistache.{
  Event, add_content_type, send_reply, what, code_internal_server_error,
}
use oai_cn5g_nssf.Http1.Operations.{Translators}
use oai_cn5g_nssf.Http1.Impl.{reply}
use oai_cn5g_nssf.Http1.Api.{
  leaving, send_error, catch_operation, operation, catch_http, handler, with_body, query_value,
}

-- What a handler has sent is one reply, with a content type before it or none.
pub data IsReply (sent : List Event) : Type 0 where
  bare : (code : ℕ) (text : Option String) → sent ≡ send_reply code text ∷ [] → IsReply sent
  typed :
      (content_type : String) (code : ℕ) (text : Option String)
      → sent ≡ add_content_type content_type ∷ send_reply code text ∷ []
      → IsReply sent

-- The action returns `a`, without an exception, and has sent one reply.
unfoldable pub RepliesOnce : {A : Type 0} → A → Action Event A → Type 0
RepliesOnce a act =
    (es : List Event) → (sent : List Event) × (act es ≡ (ok a, es ++ sent)) × IsReply sent

-- The action does so, or throws before it has sent anything.
unfoldable pub RepliesOrThrows : {A : Type 0} → A → Action Event A → Type 0
RepliesOrThrows a act =
    (es : List Event)
    → ((x : Exception) × (act es ≡ (thrown x, es)))
      ⊎ ((sent : List Event) × (act es ≡ (ok a, es ++ sent)) × IsReply sent)

-- The action replies once, or throws an `HttpError` before it has sent anything.
unfoldable pub RepliesOrThrowsHttp : Action Event (Unit {0}) → Type 0
RepliesOrThrowsHttp act =
    (es : List Event)
    → ((code : ℕ) × (s : String) × (act es ≡ (thrown (http_error code s), es)))
      ⊎ ((sent : List Event) × (act es ≡ (ok tt, es ++ sent)) × IsReply sent)

pub send-RepliesOnce :
    (code : ℕ) (text : Option String) → RepliesOnce tt (emit (send_reply code text))
unfolding RepliesOnce RepliesOrThrows
send-RepliesOnce code text es = (send_reply code text ∷ [], refl, bare code text refl)

pub reply-RepliesOnce :
    (content_type : String) (code : ℕ) (text : Option String)
    → RepliesOnce tt (reply content_type code text)
unfolding RepliesOnce RepliesOrThrows
reply-RepliesOnce content_type code text es = (
  add_content_type content_type ∷ send_reply code text ∷ [],
  ap (λ l. (ok tt, l))
      (append_assoc es (add_content_type content_type ∷ []) (send_reply code text ∷ [])),
  typed content_type code text refl,
)

pub replies :
    {A : Type 0} (a : A) (act : Action Event A) → RepliesOnce a act → RepliesOrThrows a act
unfolding RepliesOnce RepliesOrThrows
replies a act h es = inr (h es)

pub replies_http : (act : Action Event (Unit {0})) → RepliesOnce tt act → RepliesOrThrowsHttp act
unfolding RepliesOnce RepliesOrThrowsHttp
replies_http act h es = inr (h es)

pub lift-RepliesOrThrows :
    {A B : Type 0} (b : B) (r : Result A) (next : A → Action Event B)
    → ((a : A) → RepliesOrThrows b (next a))
    → RepliesOrThrows b (lift r >>= next)
unfolding RepliesOnce RepliesOrThrows
lift-RepliesOrThrows b (ok a) next h es = h a es
lift-RepliesOrThrows b (thrown x) next h es = inl (x, refl)

pub query_value-RepliesOrThrows :
    {A : Type 0} (convert : String → Result (Option A)) (text : Option String)
    (next : Option A → Action Event (Unit {0}))
    → ((a : Option A) → RepliesOrThrows tt (next a))
    → RepliesOrThrows tt (query_value convert text >>= next)
unfolding RepliesOnce RepliesOrThrows
query_value-RepliesOrThrows convert none next h es = h none es
query_value-RepliesOrThrows convert (some text) next h es =
    lift-RepliesOrThrows tt (convert text) next h es

pub leaving-RepliesOnce :
    {A : Type 0} (a : A) (act : Action Event (Unit {0}))
    → RepliesOnce tt act
    → RepliesOnce a (leaving a act)
unfolding RepliesOnce
leaving-RepliesOnce a act h es = let (sent, e, r) = h es in (sent, rw e refl, r)

send_error-RepliesOnce : (e : ℕ × String) → RepliesOnce tt (send_error e)
send_error-RepliesOnce (code, text) = send-RepliesOnce code (some text)

pub with_body-RepliesOrThrows :
    {A B : Type 0} (b : B) (t : Translators) (r : Result A) (next : A → Action Event B)
    → ((a : A) → RepliesOrThrows b (next a))
    → RepliesOrThrows b (with_body b t r next)
with_body-RepliesOrThrows b t (ok a) next h = h a
with_body-RepliesOrThrows b t (thrown x) next h =
    replies b _ (leaving-RepliesOnce b _ (send_error-RepliesOnce (t.handle_parsing_exception x)))

catch_operation-RepliesOnce :
    (t : Translators) (x : Exception) → RepliesOnce tt (catch_operation t x)
catch_operation-RepliesOnce t (http_error code s) = send_error-RepliesOnce (code, s)
catch_operation-RepliesOnce t (json_error s) = send_error-RepliesOnce _
catch_operation-RepliesOnce t (std_error s) = send_error-RepliesOnce _

pub operation-RepliesOrThrows :
    {A : Type 0} (a : A) (t : Translators) (act : Action Event A)
    → RepliesOrThrows a act
    → RepliesOrThrows a (operation a t act)
unfolding RepliesOnce RepliesOrThrows
operation-RepliesOrThrows a t act h es = elim (h es) [
  | inl (x, e) ↦
      let (sent, f, r) = leaving-RepliesOnce a _ (catch_operation-RepliesOnce t x) es in
      inr (sent, rw e f, r)
  | inr (sent, e, r) ↦ inr (sent, rw e refl, r)
]

pub catch_http-RepliesOnce :
    (act : Action Event (Unit {0}))
    → RepliesOrThrowsHttp act
    → RepliesOnce tt (try_catch act catch_http)
unfolding RepliesOnce RepliesOrThrowsHttp
catch_http-RepliesOnce act h es = elim (h es) [
  | inl (code, s, e) ↦ (send_reply code (some s) ∷ [], rw e refl, bare code (some s) refl)
  | inr (sent, e, r) ↦ (sent, rw e refl, r)
]

pub handler-RepliesOnce :
    {A : Type 0} (a : A) (act : Action Event A)
    → RepliesOrThrows a act
    → RepliesOnce a (handler a act)
unfolding RepliesOnce RepliesOrThrows
handler-RepliesOnce a act h es = elim (h es) [
  | inl (x, e) ↦ (
    send_reply code_internal_server_error (some (what x)) ∷ [],
    rw e refl,
    bare code_internal_server_error (some (what x)) refl,
  )
  | inr (sent, e, r) ↦ (sent, rw e refl, r)
]
