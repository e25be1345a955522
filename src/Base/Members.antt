-- ===== src/Base/Members.antt =====
-- Lists with the same members, in any order and with any repetitions, and lists whose members are related.
use mathlib.Core.Path.{◌≡◌, refl, subst}
use mathlib.Core.Logic.{◌↔◌, inl, inr}
use mathlib.Core.Bool.{Bool, true}
use mathlib.Core.List.{List, [], ◌∷◌}
use native.Mathlib.Omega.{arith}
use oai_cn5g_nssf.Base.Equality.{Bool-cases}
use oai_cn5g_nssf.Base.Lists.{Any, All, any}

module _ {A : Type 0} where
  abbrev pub IsIn : A → List A → Type 0
  IsIn x xs = Any (λ y. y ≡ x) xs

  abbrev pub SameMembers : List A → List A → Type 0
  SameMembers xs ys = (x : A) → IsIn x xs ↔ IsIn x ys

  pub flip_members : (xs ys : List A) → SameMembers xs ys → SameMembers ys xs
  flip_members xs ys same x = ((same x).1, (same x).0)

  All-IsIn : (P : A → Type 0) (xs : List A) (x : A) → All P xs → IsIn x xs → P x
  All-IsIn P [] x all found = absurd found
  All-IsIn P (y ∷ ys) x (first, all) (inl e) = subst P e first
  All-IsIn P (y ∷ ys) x (first, all) (inr found) = All-IsIn P ys x all found

  IsIn-All : (P : A → Type 0) (xs : List A) → ((x : A) → IsIn x xs → P x) → All P xs
  IsIn-All P [] h = tt
  IsIn-All P (x ∷ xs) h = (h x (inl refl), IsIn-All P xs (λ y found. h y (inr found)))

  pub All-SameMembers : (P : A → Type 0) (xs ys : List A) → SameMembers xs ys → All P xs → All P ys
  All-SameMembers P xs ys same all =
      IsIn-All P ys (λ x found. All-IsIn P xs x all ((same x).1 found))

  any-IsIn : (p : A → Bool) (xs : List A) (x : A) → p x ≡ true → IsIn x xs → any p xs ≡ true
  any-IsIn p [] x h found = absurd found
  any-IsIn p (y ∷ ys) x h (inl e) = let hit : p y ≡ true = rw e h in ground arith
  any-IsIn p (y ∷ ys) x h (inr found) = ground (arith, any-IsIn p ys x h found)

  any-witness : (p : A → Bool) (xs : List A) → any p xs ≡ true → (x : A) × (p x ≡ true) × IsIn x xs
  any-witness p [] h = absurd (cc)
  any-witness p (x ∷ xs) h = elim (Bool-cases (p x)) [
    | inl e ↦ (x, e, inl refl)
    | inr e ↦
        let rest : any p xs ≡ true = ground arith in
        let (y, f, found) = any-witness p xs rest in (y, f, inr found)
  ]

  still_any :
      (p : A → Bool) (xs ys : List A) → SameMembers xs ys → any p xs ≡ true → any p ys ≡ true
  still_any p xs ys same h =
      let (x, e, found) = any-witness p xs h in any-IsIn p ys x e ((same x).0 found)

  -- A test finds a member of both lists or of neither.
  pub any-SameMembers : (p : A → Bool) (xs ys : List A) → SameMembers xs ys → any p xs ≡ any p ys
  any-SameMembers p xs ys same =
      let there = still_any p xs ys same in
      let back = still_any p ys xs (flip_members xs ys same) in ground (arith, there, back)

  -- Each item of the one list has a related one in the other.
  abbrev pub Within : (A → A → Type 0) → List A → List A → Type 0
  Within R xs ys = All (λ x. Any (R x) ys) xs

  pub Any-mono : {P Q : A → Type 0} → ((x : A) → P x → Q x) → (xs : List A) → Any P xs → Any Q xs
  Any-mono f [] never = never
  Any-mono f (x ∷ xs) (inl h) = inl (f x h)
  Any-mono f (x ∷ xs) (inr later) = inr (Any-mono f xs later)

  All-Any :
      {P Q : A → Type 0} {T : Type 0}
      → ((x : A) → P x → Q x → T)
      → (xs : List A) → All P xs
      → Any Q xs
      → T
  All-Any f (x ∷ xs) (p, all) (inl q) = f x p q
  All-Any f (x ∷ xs) (p, all) (inr later) = All-Any f xs all later
  All-Any f [] all never = absurd never

  pub All-Within :
      (R : A → A → Type 0) (P : A → Type 0)
      → ((x y : A) → R x y → P y → P x)
      → (xs ys : List A) → Within R xs ys
      → All P ys
      → All P xs
  All-Within R P f [] ys w all = tt
  All-Within R P f (x ∷ xs) ys (near, w) all =
      (All-Any (λ y p r. f x y r p) ys all near, All-Within R P f xs ys w all)

  some_true : (q : A → Bool) (ys : List A) → Any (λ y. q y ≡ true) ys → any q ys ≡ true
  some_true q (y ∷ ys) (inl e) = ground arith
  some_true q (y ∷ ys) (inr later) = ground (arith, some_true q ys later)
  some_true q [] never = absurd never

  pub any-Within :
      (R : A → A → Type 0) (p q : A → Bool)
      → ((x y : A) → R x y → p x ≡ true → q y ≡ true)
      → (xs ys : List A) → Within R xs ys
      → any p xs ≡ true
      → any q ys ≡ true
  any-Within R p q f [] ys w h = absurd (cc)
  any-Within R p q f (x ∷ xs) ys (near, w) h = elim (Bool-cases (p x)) [
    | inl e ↦ some_true q ys (Any-mono (λ y r. f x y r e) ys near)
    | inr e ↦ let rest : any p xs ≡ true = ground arith in any-Within R p q f xs ys w rest
  ]
