-- ===== src/Config/Parse/Loop.antt =====
-- The loop of the parsing functions.
use oai_cn5g_nssf.Base.{
  ◌≡◌, refl, sym, ap, ◌∙◌, ◌⊎◌, inl, inr, Bool, true, false, Option, none, some, List, [], ◌∷◌,
  ◌++◌, map, Option-cases, Any,
}
use mathlib.Core.List.{append_assoc, append-nil}
use oai_cn5g_nssf.Config.Parse.{push_entries, collect}

-- Two lists of the same length whose elements are related in order.
abbrev pub All₂ : {A B : Type 0} → (A → B → Type 0) → List A → List B → Type 0
All₂ R [] [] = Unit
All₂ R [] (b ∷ bs) = ⊥
All₂ R (a ∷ xs) [] = ⊥
All₂ R (a ∷ xs) (b ∷ bs) = R a b × All₂ R xs bs

-- What a function makes of each element is related to it.
pub All₂-map :
    {A B : Type 0} (R : A → B → Type 0) (f : A → B) (xs : List A)
    → ((x : A) → R x (f x))
    → All₂ R xs (map f xs)
All₂-map R f [] h = tt
All₂-map R f (x ∷ xs) h = (h x, All₂-map R f xs h)

-- A relation passes to another by a function of its right-hand side.
pub All₂-map_right :
    {A B C : Type 0} (R : A → B → Type 0) (S : A → C → Type 0) (f : B → C) (xs : List A)
    (ys : List B)
    → ((x : A) (y : B) → R x y → S x (f y))
    → All₂ R xs ys
    → All₂ S xs (map f ys)
All₂-map_right R S f [] [] h r = tt
All₂-map_right R S f [] (y ∷ ys) h r = r
All₂-map_right R S f (x ∷ xs) [] h r = r
All₂-map_right R S f (x ∷ xs) (y ∷ ys) h (r, rs) = (h x y r, All₂-map_right R S f xs ys h rs)

-- What holds for some element passes to a related one, which may stand behind others.
pub Any-All₂ :
    {A B : Type 0} (R : A → B → Type 0) (P : A → Type 0) (Q : B → Type 0)
    → ((a : A) (b : B) → P a → R a b → Q b)
    → (xs : List A) (old ys : List B) → Any P xs
    → All₂ R xs ys
    → Any Q (old ++ ys)
Any-All₂ R P Q f xs (o ∷ old) ys h all = inr (Any-All₂ R P Q f xs old ys h all)
Any-All₂ R P Q f (x ∷ xs) [] (y ∷ ys) (inl h) (r, all) = inl (f x y h r)
Any-All₂ R P Q f (x ∷ xs) [] (y ∷ ys) (inr h) (r, all) = inr (Any-All₂ R P Q f xs [] ys h all)
Any-All₂ R P Q f (x ∷ xs) [] [] h all = absurd all
Any-All₂ R P Q f [] [] ys h all = absurd h

module _ {N A : Type 0} (entry : N → Option A) where
  -- The nodes give the entries.
  abbrev pub Gives : N → A → Type 0
  Gives n a = entry n ≡ some a

  pub push_step :
      (n : N) (ns : List N) (a : A) (out : List A)
      → entry n ≡ some a
      → push_entries entry (n ∷ ns) out ≡ push_entries entry ns (out ++ a ∷ [])
  push_step n ns a out e = rw (push_entries, e)

  pub push_stop :
      (n : N) (ns : List N) (out : List A)
      → entry n ≡ none
      → push_entries entry (n ∷ ns) out ≡ (false, out)
  push_stop n ns out e = rw (push_entries, e)

  pub push_entries-Gives :
      (ns : List N) (xs out : List A)
      → All₂ Gives ns xs
      → push_entries entry ns out ≡ (true, out ++ xs)
  push_entries-Gives [] [] out h = rw append-nil
  push_entries-Gives [] (a ∷ xs) out h = absurd h
  push_entries-Gives (n ∷ ns) [] out h = absurd h
  push_entries-Gives (n ∷ ns) (a ∷ xs) out (e, h) =
      push_step n ns a out e
      ∙ push_entries-Gives ns xs (out ++ a ∷ []) h
      ∙ ap (λ l. (true, l)) (append_assoc out (a ∷ []) xs)

  pub collect-Gives : (ns : List N) (xs : List A) → All₂ Gives ns xs → collect entry ns ≡ some xs
  collect-Gives ns xs h = rw (push_entries-Gives ns xs [] h)

  -- Entries are pushed up to the first node that gives none; the loop ends well if all give one.
  abbrev pub Pushes : List N → List A → Bool × List A → Type 0
  Pushes ns out (done, out') =
      (xs : List A) × (out' ≡ out ++ xs)
      × (((done ≡ true) × All₂ Gives ns xs)
          ⊎ ((done ≡ false)
              × (before : List N) × (bad : N) × (after : List N) × (ns ≡ before ++ bad ∷ after)
              × All₂ Gives before xs
              × (entry bad ≡ none)))

  pub push_entries-Pushes : (ns : List N) (out : List A) → Pushes ns out (push_entries entry ns out)
  push_entries-Pushes [] out = ([], sym (append-nil out), inl (refl, tt))
  push_entries-Pushes (n ∷ ns) out = elim (Option-cases (entry n)) [
    | inl e ↦
        rw (push_stop n ns out e) ([], sym (append-nil out), inr (refl, [], n, ns, refl, tt, e))
    | inr (a, e) ↦
        rw (push_step n ns a out e)
          (push_later n ns a out (out ++ a ∷ []) refl e (push_entries-Pushes ns (out ++ a ∷ [])))
  ]
    where
      push_later :
          (n : N) (ns : List N) (a : A) (out mid : List A)
          → mid ≡ out ++ a ∷ []
          → entry n ≡ some a
          → Pushes ns mid (push_entries entry ns mid)
          → Pushes (n ∷ ns) out (push_entries entry ns mid)
      push_later n ns a out mid m e (xs, o, inl (d, h)) =
          (a ∷ xs, o ∙ ap (λ l. l ++ xs) m ∙ append_assoc out (a ∷ []) xs, inl (d, (e, h)))
      push_later n ns a out mid m e (xs, o, inr (d, before, bad, after, split, h, f)) = (
        a ∷ xs,
        o ∙ ap (λ l. l ++ xs) m ∙ append_assoc out (a ∷ []) xs,
        inr (d, n ∷ before, bad, after, ap (◌∷◌ n) split, (e, h), f),
      )
