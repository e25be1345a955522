-- ===== src/Base/Equality.antt =====
-- Conditionals, and equality tests as an interface with instances for the types that the program
-- compares.
use Prim.Native.Nat.{ℕ, suc, ◌+◌, ◌≤◌, compare, Ordering}
use Prim.Native.String.{String}
use mathlib.Core.HLevel.{hedberg}
use mathlib.Core.Path.{◌≡◌, refl}
use mathlib.Core.Logic.{◌↔◌, ◌≢◌, ◌⊎◌, inl, inr}
use mathlib.Core.Bool.{Bool, true, false}
use mathlib.Core.Option.{Option, none, some}
use native.Mathlib.Omega.{arith}
use text.Mathlib.Text.{◌==◌ as str_eq}
use text.Mathlib.TextEquality.{eq_iff}

abbrev pub ltb : ℕ → ℕ → Bool
ltb a b = elim (compare a b) [ Ordering.lt ↦ true | _ ↦ false ]

abbrev pub leb : ℕ → ℕ → Bool
leb a b = elim (compare a b) [ Ordering.gt ↦ false | _ ↦ true ]

abbrev pub nat_beq : ℕ → ℕ → Bool
nat_beq a b = elim (compare a b) [ Ordering.eq ↦ true | _ ↦ false ]

infix 1 if◌then◌else◌
abbrev pub if◌then◌else◌ {ℓ} : {A : Type ℓ} → Bool → A → A → A
if true then x else y = x
if false then x else y = y

pub Bool-cases : (b : Bool) → (b ≡ true) ⊎ (b ≡ false)
Bool-cases true = inl refl
Bool-cases false = inr refl

pub Option-cases {ℓ} : {A : Type ℓ} (o : Option A) → (o ≡ none) ⊎ ((a : A) × (o ≡ some a))
Option-cases none = inl refl
Option-cases (some a) = inr (a, refl)

pub nat_beq_iff : (a b : ℕ) → (nat_beq a b ≡ true) ↔ (a ≡ b)
nat_beq_iff a b = ground arith

-- A signed integer such as an `int32_t`; `negsuc n` is -(n + 1).
pub data ℤ : Type 0 where
  pos : ℕ → ℤ
  negsuc : ℕ → ℤ

abbrev pub pos_part : ℤ → ℕ
pos_part (pos n) = n
pos_part (negsuc n) = 0

abbrev pub neg_part : ℤ → ℕ
neg_part (pos n) = 0
neg_part (negsuc n) = suc n

infix 50 ◌≤ℤ◌
abbrev pub ◌≤ℤ◌ : ℤ → ℤ → Type 0
a ≤ℤ b = pos_part a + neg_part b ≤ pos_part b + neg_part a

abbrev pub leb_ℤ : ℤ → ℤ → Bool
leb_ℤ a b = leb (pos_part a + neg_part b) (pos_part b + neg_part a)

abbrev pub int_beq : ℤ → ℤ → Bool
int_beq a b = nat_beq (pos_part a + neg_part b) (pos_part b + neg_part a)

pub int_beq_iff : (a b : ℤ) → (int_beq a b ≡ true) ↔ (a ≡ b)
int_beq_iff a b = ground arith

pub leb_ℤ_iff : (a b : ℤ) → (leb_ℤ a b ≡ true) ↔ (a ≤ℤ b)
leb_ℤ_iff a b = ground arith

-- A type whose values the program compares with `==` or `compare`.
pub record Comparable {ℓ} (A : Type ℓ) : Type ℓ where
  pub is_same : A → A → Bool
  pub same_iff : (x y : A) → (is_same x y ≡ true) ↔ (x ≡ y)

module _ {ℓ} {A : Type ℓ} where
  infix 50 ◌==◌
  abbrev pub ◌==◌ : ⦃c : Comparable A⦄ → A → A → Bool
  ◌==◌ ⦃c⦄ x y = c.is_same x y

  pub ==_iff : ⦃c : Comparable A⦄ (x y : A) → ((x == y) ≡ true) ↔ (x ≡ y)
  ==_iff ⦃c⦄ x y = c.same_iff x y

instance abbrev pub string_equality : Comparable String
string_equality = record { same_iff = eq_iff; is_same = str_eq }

instance abbrev pub int_equality : Comparable ℤ
int_equality = record { same_iff = int_beq_iff; is_same = int_beq }

instance abbrev pub nat_equality : Comparable ℕ
nat_equality = record { same_iff = nat_beq_iff; is_same = nat_beq }

pub String-cases : (s t : String) → (s ≡ t) ⊎ (s ≢ t)
String-cases s t = elim (Bool-cases (str_eq s t)) [
  | inl e ↦ inl ((eq_iff s t).0 e)
  | inr e ↦ inr (λ same. ground (arith, (eq_iff s t).1 same))
]

String-discrete : Discrete String
String-discrete s t = elim (String-cases s t) [ inl e ↦ yes e | inr n ↦ no n ]

pub String-IsSet : IsSet String
String-IsSet = hedberg String-discrete

-- Two tests agree if each is true when the other is.
pub Bool-ext : (a b : Bool) → (a ≡ true → b ≡ true) → (b ≡ true → a ≡ true) → a ≡ b
Bool-ext a b f g = ground arith
