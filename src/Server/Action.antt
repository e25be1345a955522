-- ===== src/Server/Action.antt =====
-- A handler as an action: it may throw, and what it has sent before stays sent.
use oai_cn5g_nssf.Base.{ℕ, String, ◌≡◌, refl, ◌⊎◌, inl, inr, List, [], ◌∷◌, ◌++◌}

-- The exception classes that the handlers' `catch` clauses tell apart, with `what()`:
-- `nlohmann::detail::exception`, `Pistache::Http::HttpError` with its code, and any other
-- `std::exception`.
pub data Exception : Type 0 where
  json_error : String → Exception
  http_error : ℕ → String → Exception
  std_error : String → Exception

pub data Result (A : Type 0) : Type 0 where
  ok : A → Result A
  thrown : Exception → Result A

-- The events of type `E` are those sent so far, the oldest first.
abbrev pub Action : Type 0 → Type 0 → Type 0
Action E A = List E → Result A × List E

module _ {E A : Type 0} where
  abbrev pub pure : A → Action E A
  pure a es = (ok a, es)

  abbrev pub lift : Result A → Action E A
  lift r es = (r, es)

  abbrev pub handle : Result A → (Exception → Action E A) → Action E A
  handle (ok a) h es = (ok a, es)
  handle (thrown x) h es = h x es

  -- `try { m } catch …`: the handler throws again what it does not catch.
  abbrev pub try_catch : Action E A → (Exception → Action E A) → Action E A
  try_catch m h es = let (r, es') = m es in handle r h es'

abbrev pub emit : {E : Type 0} → E → Action E (Unit {0})
emit e es = (ok tt, es ++ e ∷ [])

abbrev pub continue : {E A B : Type 0} → Result A → (A → Action E B) → Action E B
continue (ok a) f es = f a es
continue (thrown x) f es = (thrown x, es)

infixl 5 ◌>>=◌ ◌>>◌
abbrev pub ◌>>=◌ : {E A B : Type 0} → Action E A → (A → Action E B) → Action E B
◌>>=◌ m f es = let (r, es') = m es in continue r f es'

abbrev pub ◌>>◌ : {E B : Type 0} → Action E (Unit {0}) → Action E B → Action E B
m >> k = m >>= λ _. k

pub Result-cases :
    {A : Type 0} (r : Result A) → ((a : A) × (r ≡ ok a)) ⊎ ((x : Exception) × (r ≡ thrown x))
Result-cases (ok a) = inl (a, refl)
Result-cases (thrown x) = inr (x, refl)
