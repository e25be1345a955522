-- ===== src/Tests/Router.antt =====
-- A router that meets every law, and requests to the HTTP/1 server over it: a pattern matches the path
-- that is equal to it, and the first route for the method is taken.
use oai_cn5g_nssf.Base.{
  ℕ, zero, suc, ap, ◌↔◌, ==_iff, nat_equality, String, ◌≡◌, refl, ◌∙◌, sym, Bool, true, false, ◌&&◌,
  Option, none, some, List, [], ◌∷◌, Any, All, inl, inr, arith, ◌==◌, string_equality,
  if◌then◌else◌,
}
use oai_cn5g_nssf.Http1.Routes.{
  Method, http_get, http_put, http_post, http_patch, http_delete, http_options, Call, add_route,
  add_custom_handler,
}
use oai_cn5g_nssf.Http1.Routes.Router.{Brings, Routes, LeadsTo, first_custom, Router}
use oai_cn5g_nssf.Http1.Routes.{Handler, reading}
use oai_cn5g_nssf.Http1.Routes.Setup.{init}
use oai_cn5g_nssf.Http1.Routes.Dispatch.{
  dispatch, dispatched-RepliesOnce, NotFound, unmatched-NotFound, versioned_unsubscribe-NotFound,
  put_request-PutReplies,
}
use oai_cn5g_nssf.Http1.Pistache.{Event}
use oai_cn5g_nssf.Http1.Api.{
  leaving, n_ssai_availability_options_handler, n_ssai_availability_sub_modify_patch_handler,
}
use oai_cn5g_nssf.Http1.Api.Once.{RepliesOnce}
use oai_cn5g_nssf.Http1.Server.{nssf_api_server}
use oai_cn5g_nssf.Http1.Server.Put.{PutReplies}
use oai_cn5g_nssf.Server.Action.{ok}
use oai_cn5g_nssf.Tests.Concrete.{concrete, concrete_sbi}
use oai_cn5g_nssf.Tests.Selection.{config}
use oai_cn5g_nssf.Tests.Pistache.{concrete_pistache}

abbrev number : Method → ℕ
number http_get = 0
number http_put = 1
number http_post = 2
number http_patch = 3
number http_delete = 4
number http_options = 5

abbrev method_of : ℕ → Method
method_of zero = http_get
method_of (suc zero) = http_put
method_of (suc (suc zero)) = http_post
method_of (suc (suc (suc zero))) = http_patch
method_of (suc (suc (suc (suc zero)))) = http_delete
method_of (suc (suc (suc (suc (suc n))))) = http_options

method_of-number : (a : Method) → method_of (number a) ≡ a
method_of-number http_get = refl
method_of-number http_put = refl
method_of-number http_post = refl
method_of-number http_patch = refl
method_of-number http_delete = refl
method_of-number http_options = refl

abbrev same_method : Method → Method → Bool
same_method a b = number a == number b

same_method_iff : (a b : Method) → (same_method a b ≡ true) ↔ (a ≡ b)
same_method_iff a b =
    let (there, back) = ==_iff (number a) (number b) in
    (
      (λ h. sym (method_of-number a) ∙ ap method_of (there h) ∙ method_of-number b),
      (λ e. back (ap number e)),
    )

pub Bool-false : {b : Bool} → ¬ (b ≡ true) → b ≡ false
Bool-false {b} h = ground arith

module _ {H : Type 0} (test : String → Bool) where
  abbrev find_route : Method → List (Call H) → Option H
  find_route method [] = none
  find_route method (add_route method' pattern h ∷ calls) =
      if same_method method' method && test pattern then some h else find_route method calls
  find_route method (add_custom_handler h ∷ calls) = find_route method calls

  abbrev after_routes : List (Call H) → Option H → Option H
  after_routes calls (some h) = some h
  after_routes calls none = first_custom calls

  abbrev choose : Method → List (Call H) → Option H
  choose method calls = after_routes calls (find_route method calls)

  pub find_route-Brings :
      (method : Method) (calls : List (Call H)) (h : H)
      → find_route method calls ≡ some h
      → Any (Brings h) calls
  find_route-Brings method [] h e = absurd (cc)
  find_route-Brings method (add_route method' pattern g ∷ calls) h e =
      ground (arith, find_route-Brings method calls h)
  find_route-Brings method (add_custom_handler g ∷ calls) h e =
      inr (find_route-Brings method calls h e)

  first_custom-Brings :
      (calls : List (Call H)) (h : H) → first_custom calls ≡ some h → Any (Brings h) calls
  first_custom-Brings [] h e = absurd (cc)
  first_custom-Brings (add_route method pattern g ∷ calls) h e = inr (first_custom-Brings calls h e)
  first_custom-Brings (add_custom_handler g ∷ calls) h e = inl (cc)

  pub choose-Brings :
      (calls : List (Call H)) (found : Option H) (h : H)
      → ((g : H) → found ≡ some g → Any (Brings g) calls)
      → after_routes calls found ≡ some h
      → Any (Brings h) calls
  choose-Brings calls (some g) h brings e = brings h e
  choose-Brings calls none h brings e = first_custom-Brings calls h e

  pub find_route-none :
      (method : Method) (calls : List (Call H))
      → ¬ Any (Routes method test) calls
      → find_route method calls ≡ none
  find_route-none method [] absent = refl
  find_route-none method (add_route method' pattern g ∷ calls) absent =
      ground (arith, find_route-none method calls, same_method_iff method' method)
  find_route-none method (add_custom_handler g ∷ calls) absent =
      find_route-none method calls (λ h. absent (inr h))

  pub find_route-LeadsTo :
      (method : Method) (calls : List (Call H)) (h : H)
      → Any (Routes method test) calls
      → All (LeadsTo method test h) calls
      → find_route method calls ≡ some h
  find_route-LeadsTo method [] h found all = absurd found
  find_route-LeadsTo method (add_route method' pattern g ∷ calls) h found all =
      ground (arith, find_route-LeadsTo method calls h, same_method_iff method' method)
  find_route-LeadsTo method (add_custom_handler g ∷ calls) h found (u, all) = elim found [
    | inl never ↦ absurd never
    | inr later ↦ find_route-LeadsTo method calls h later all
  ]

-- The pattern is the path.
abbrev names : String → String → Bool
names path pattern = pattern == path

abbrev pub concrete_router : Router
concrete_router = record {
  matches = λ pattern path. names path pattern;
  dispatch = λ calls method path. choose (names path) method calls;
  dispatch_brings = λ calls method path h e.
      let test = names path in
      choose-Brings test calls (find_route test method calls) h
        (find_route-Brings test method calls) e;
  dispatch_route = λ calls method path h found all.
      rw (find_route-LeadsTo (names path) method calls h found all) refl;
  dispatch_unmatched =
      λ calls method path absent. rw (find_route-none (names path) method calls absent) refl;
}

dispatched-RepliesOnce_example : RepliesOnce config (
    leaving config (
      n_ssai_availability_options_handler concrete concrete_sbi concrete_pistache
        (nssf_api_server concrete concrete_sbi concrete_pistache config).nssai_availability_store
        "amf-9"))
unfolding init
dispatched-RepliesOnce_example =
    dispatched-RepliesOnce concrete concrete_sbi concrete_pistache concrete_router config
      http_options "/nnssf-nssaiavailability/v1/nssai-availability" "amf-9" _ refl

other_path-NotFound :
    NotFound concrete concrete_sbi concrete_pistache concrete_router http_get "/other"
unfolding init
other_path-NotFound =
    unmatched-NotFound concrete concrete_sbi concrete_pistache concrete_router http_get "/other"
      (ground arith)

abbrev subscription_path : String
subscription_path = "/nnssf-nssaiavailability/v1/nssai-availability/subscriptions/:subscriptionId"

versioned_unsubscribe-NotFound_example :
    (dispatch concrete concrete_sbi concrete_pistache concrete_router http_patch subscription_path
      ≡ some (
          reading concrete concrete_sbi concrete_pistache (λ cfg.
            n_ssai_availability_sub_modify_patch_handler concrete concrete_sbi concrete_pistache
              (nssf_api_server concrete concrete_sbi concrete_pistache
                cfg).subscription_id_document)))
    × NotFound concrete concrete_sbi concrete_pistache concrete_router http_delete subscription_path
versioned_unsubscribe-NotFound_example =
    versioned_unsubscribe-NotFound concrete concrete_sbi concrete_pistache concrete_router
      subscription_path refl refl refl

put_request-PutReplies_example :
    (h : Handler concrete concrete_sbi concrete_pistache) × (sent : List Event) × (dispatch concrete
        concrete_sbi concrete_pistache concrete_router http_put
        "/nnssf-nssaiavailability/v1/nssai-availability/:nfId"
      ≡ some h)
    × (h config "amf-9" [] ≡ (ok config, sent))
    × PutReplies concrete concrete_sbi concrete_pistache config "amf-9" sent
put_request-PutReplies_example =
    put_request-PutReplies concrete concrete_sbi concrete_pistache concrete_router
      "/nnssf-nssaiavailability/v1/nssai-availability/:nfId" config "amf-9" [] refl
