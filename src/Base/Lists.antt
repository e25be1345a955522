-- ===== src/Base/Lists.antt =====
-- Lists measured by native numbers, searches and filters by Boolean tests, and their laws.
use Prim.Native.Nat.{ℕ, suc, ◌+◌, ◌≤◌, ◌<◌}
use mathlib.Core.Path.{◌≡◌, refl, ap}
use mathlib.Core.Logic.{◌≢◌, ◌↔◌, ◌⊎◌, inl, inr}
use mathlib.Core.Bool.{Bool, true, false, ◌||◌, ◌&&◌, not}
use mathlib.Core.List.{List, [], ◌∷◌, ◌++◌, map}
use native.Mathlib.Omega.{arith}
use oai_cn5g_nssf.Base.Equality.{nat_beq, if◌then◌else◌}

module _ {ℓ} {A : Type ℓ} where
  abbrev pub length : List A → ℕ
  length [] = 0
  length (x ∷ xs) = suc (length xs)

  -- `std::vector::empty`
  abbrev pub is_nil : List A → Bool
  is_nil [] = true
  is_nil (x ∷ xs) = false

  -- The elements that pass a test, in order.
  abbrev pub filter : (A → Bool) → List A → List A
  filter p [] = []
  filter p (x ∷ xs) = if p x then x ∷ filter p xs else filter p xs

  abbrev pub any : (A → Bool) → List A → Bool
  any p [] = false
  any p (x ∷ xs) = p x || any p xs

  abbrev pub all : (A → Bool) → List A → Bool
  all p [] = true
  all p (x ∷ xs) = p x && all p xs

  pub length-filter_split :
      (p : A → Bool) (xs : List A)
      → length (filter p xs) + length (filter (λ x. not (p x)) xs) ≡ length xs
  length-filter_split p [] = omega arith
  length-filter_split p (x ∷ xs) = ground (arith, length-filter_split p xs)

  -- A test that every element passes leaves nothing to reject.
  pub filter-not-all :
      (p : A → Bool) (xs : List A) → all p xs ≡ true → filter (λ x. not (p x)) xs ≡ []
  filter-not-all p [] h = refl
  filter-not-all p (x ∷ xs) h = ground (arith, filter-not-all p xs)

  pub all-filter-not :
      (p : A → Bool) (xs : List A) → filter (λ x. not (p x)) xs ≡ [] → all p xs ≡ true
  all-filter-not p [] h = refl
  all-filter-not p (x ∷ xs) h = ground (arith, all-filter-not p xs)

  pub filter-any-false : (p : A → Bool) (xs : List A) → any p xs ≡ false → filter p xs ≡ []
  filter-any-false p [] h = refl
  filter-any-false p (x ∷ xs) h = ground (arith, filter-any-false p xs)

  pub any-length-filter : (p : A → Bool) (xs : List A) → any p xs ≡ true → 0 < length (filter p xs)
  any-length-filter p [] h = cc
  any-length-filter p (x ∷ xs) h = ground (arith, any-length-filter p xs)

  pub length-filter_le : (p : A → Bool) (xs : List A) → length (filter p xs) ≤ length xs
  length-filter_le p [] = omega arith
  length-filter_le p (x ∷ xs) = ground (arith, length-filter_le p xs)

  pub length_pos : (xs : List A) → xs ≢ [] → 0 < length xs
  length_pos [] h = absurd (h refl)
  length_pos (x ∷ xs) h = omega arith

  -- All elements are rejected exactly if none passes.
  pub length-filter-not :
      (p : A → Bool) (xs : List A)
      → nat_beq (length (filter (λ x. not (p x)) xs)) (length xs) ≡ not (any p xs)
  length-filter-not p xs =
      ground (arith, length-filter_split p xs, filter-any-false p xs, any-length-filter p xs)

pub length-map {ℓ κ} :
    {A : Type ℓ} {B : Type κ} (f : A → B) (xs : List A) → length (map f xs) ≡ length xs
length-map f [] = refl
length-map f (x ∷ xs) = ap suc (length-map f xs)

module _ {ℓ} {A : Type ℓ} (P : A → Type 0) where
  -- Some element has the property; the proof says which.
  abbrev pub Any : List A → Type 0
  Any [] = ⊥
  Any (x ∷ xs) = P x ⊎ Any xs

  abbrev pub All : List A → Type 0
  All [] = Unit
  All (x ∷ xs) = P x × All xs

module _ {ℓ} {A : Type ℓ} {P : A → Type 0} (p : A → Bool)
    (p_iff : (x : A) → (p x ≡ true) ↔ P x) where
  pub any_iff : (xs : List A) → (any p xs ≡ true) ↔ Any P xs
  any_iff [] = ground arith
  any_iff (x ∷ xs) = ground (arith, p_iff x, any_iff xs)

  pub all_iff : (xs : List A) → (all p xs ≡ true) ↔ All P xs
  all_iff [] = ground arith
  all_iff (x ∷ xs) = ground (arith, p_iff x, all_iff xs)

module _ {ℓ} {A : Type ℓ} (P : A → Type 0) where
  pub Any-split : (before : List A) {x : A} (after : List A) → P x → Any P (before ++ x ∷ after)
  Any-split [] after h = inl h
  Any-split (y ∷ before) after h = inr (Any-split before after h)

  pub All-not-Any :
      (Q : A → Type 0) (clash : (x : A) → Q x → ¬ P x) (xs : List A) → All Q xs → ¬ Any P xs
  All-not-Any Q clash [] qs h = h
  All-not-Any Q clash (x ∷ xs) (q, qs) (inl p) = clash x q p
  All-not-Any Q clash (x ∷ xs) (q, qs) (inr ps) = All-not-Any Q clash xs qs ps

pub iff_yes : {A B : Type 0} → A → B → A ↔ B
iff_yes a b = ((λ _. b), (λ _. a))

pub iff_no : {A B : Type 0} → ¬ A → ¬ B → A ↔ B
iff_no f g = ((λ a. absurd (f a)), (λ b. absurd (g b)))
