-- ===== src/Http1/Routes/Router.antt =====
-- What Pistache's router does with the calls that it got, as far as it is documented.
use oai_cn5g_nssf.Base.{String, ◌≡◌, Bool, true, Option, none, some, List, [], ◌∷◌, Any, All}
use oai_cn5g_nssf.Http1.Routes.{Method, Call, add_route, add_custom_handler}

module _ {Handler : Type 0} where
  -- The handler is one of those that a call brought.
  abbrev pub Brings : Handler → Call Handler → Type 0
  Brings h (add_route method pattern g) = g ≡ h
  Brings h (add_custom_handler g) = g ≡ h

  -- A call has added a route for the method, whose pattern is one of those that pass a test.
  abbrev pub Routes : Method → (String → Bool) → Call Handler → Type 0
  Routes method test (add_route method' pattern h) = (method' ≡ method) × (test pattern ≡ true)
  Routes method test (add_custom_handler h) = ⊥

  -- A route for the method, if its pattern passes the test, is one to the handler.
  abbrev pub LeadsTo : Method → (String → Bool) → Handler → Call Handler → Type 0
  LeadsTo method test h (add_route method' pattern g) =
      method' ≡ method → test pattern ≡ true → g ≡ h
  LeadsTo method test h (add_custom_handler g) = Unit

  -- The default handler that is called first.
  abbrev pub first_custom : List (Call Handler) → Option Handler
  first_custom [] = none
  first_custom (add_route method pattern h ∷ calls) = first_custom calls
  first_custom (add_custom_handler h ∷ calls) = some h

-- The router: whether a pattern matches a path, and the handler that is called for a method and a path;
-- none if the router answers by itself.
pub record Router : Type 1 where
  pub matches : String → String → Bool
  pub dispatch : {H : Type 0} → List (Call H) → Method → String → Option H
  -- a handler that is called has been brought by some call
  pub dispatch_brings :
      {H : Type 0} (calls : List (Call H)) (method : Method) (path : String) (h : H)
      → dispatch calls method path ≡ some h
      → Any (Brings h) calls
  -- if the routes for the method that match the path all have one handler, it is called
  pub dispatch_route :
      {H : Type 0} (calls : List (Call H)) (method : Method) (path : String) (h : H)
      → Any (Routes method (λ pattern. matches pattern path)) calls
      → All (LeadsTo method (λ pattern. matches pattern path) h) calls
      → dispatch calls method path ≡ some h
  -- a request that no route for its method matches goes to the first default handler, since the
  -- handlers of `addCustomHandler` are tried before the router answers by itself
  pub dispatch_unmatched :
      {H : Type 0} (calls : List (Call H)) (method : Method) (path : String)
      → ¬ Any (Routes method (λ pattern. matches pattern path)) calls
      → dispatch calls method path ≡ first_custom calls
