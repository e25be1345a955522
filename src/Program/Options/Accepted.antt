-- ===== src/Program/Options/Accepted.antt =====
-- Which command lines are accepted.
use oai_cn5g_nssf.Base.{
  String, ◌≡◌, refl, sym, subst, ap, ◌∙◌, ◌↔◌, ◌≢◌, ◌⊎◌, inl, inr, Bool, true, false, ◌&&◌, none,
  some, List, [], ◌∷◌, Any, All, All-not-Any, ◌==◌, string_equality, arith, eq_iff, Bool-cases,
}
use oai_cn5g_nssf.Program.Options.{
  LongOption, Scanned, GetoptLong, Options, Outcome, exits, returned, short_options, long_options,
  switch_on, switch_all, parse_input_options, parse,
}

-- The option is one that the program acts on, other than the request for help.
abbrev pub IsKnown : Scanned → Type 0
IsKnown s = (s.code ≡ "c") ⊎ (s.code ≡ "o") ⊎ (s.code ≡ "r")

abbrev pub IsConfig : Scanned → Type 0
IsConfig s = s.code ≡ "c"

-- The options are parsed, and the result is `true`.
abbrev pub Accepts : Outcome → Type 0
Accepts out = (o : Options) × (out ≡ returned true o)

-- How one option changes the result and the selection of a configuration file.
step_cases :
    (s : Scanned) (result : Bool) (o : Options)
    → ((s.code ≡ "h") × (switch_on s result o ≡ none))
      ⊎ ((o' : Options) × (switch_on s result o ≡ some (result, o'))
          × (s.code ≡ "c")
          × (o'.libconfigcfg ≡ true))
      ⊎ ((o' : Options) × (switch_on s result o ≡ some (result, o'))
          × IsKnown s
          × (s.code ≢ "c")
          × (o'.libconfigcfg ≡ o.libconfigcfg))
      ⊎ ((switch_on s result o ≡ some (false, o)) × (s.code ≢ "h") × ¬ IsKnown s)
unfolding switch_on
step_cases s result o = elim (Bool-cases (s.code == "h")) [
  | inl h ↦ inl ((eq_iff s.code "h").0 h, rw h)
  | inr h ↦ elim (Bool-cases (s.code == "c")) [
    | inl c ↦ inr (
        inl (
          record o { m_libconfigcfg = s.optarg; libconfigcfg = true },
          rw (h, c),
          (eq_iff s.code "c").0 c,
          refl,
        ))
    | inr c ↦ elim (Bool-cases (s.code == "o")) [
      | inl d ↦ inr (
          inr (
            inl (
              record o { m_log_stdout = true; log_stdout = true },
              rw (h, c, d),
              inr (inl ((eq_iff s.code "o").0 d)),
              other "c" c,
              refl,
            )))
      | inr d ↦ elim (Bool-cases (s.code == "r")) [
        | inl r ↦ inr (
            inr (
              inl (
                record o { m_log_rot_file_log = true; log_rot_file_log = true },
                rw (h, c, d, r),
                inr (inr ((eq_iff s.code "r").0 r)),
                other "c" c,
                refl,
              )))
        | inr r ↦ inr (inr (inr (rw (h, c, d, r), other "h" h, unknown c d r)))
      ]
    ]
  ]
]
  where
    other : (t : String) → (s.code == t) ≡ false → s.code ≢ t
    other t e same = ground (arith, (eq_iff s.code t).1 same)

    unknown :
        (s.code == "c") ≡ false → (s.code == "o") ≡ false → (s.code == "r") ≡ false → ¬ IsKnown s
    unknown c d r (inl e) = other "c" c e
    unknown c d r (inr (inl e)) = other "o" d e
    unknown c d r (inr (inr e)) = other "r" r e

switch_all-exits :
    (s : Scanned) (ss : List Scanned) (result : Bool) (o : Options)
    → switch_on s result o ≡ none
    → switch_all (s ∷ ss) result o ≡ exits
unfolding switch_all
switch_all-exits s ss result o e = rw (switch_all, e)

switch_all-goes_on :
    (s : Scanned) (ss : List Scanned) (result result' : Bool) (o o' : Options)
    → switch_on s result o ≡ some (result', o')
    → switch_all (s ∷ ss) result o ≡ switch_all ss result' o'
unfolding switch_all
switch_all-goes_on s ss result result' o o' e = rw (switch_all, e)

-- The result is `true`, and a configuration file has been given.
abbrev IsGood : Outcome → Type 0
IsGood exits = ⊥
IsGood (returned ret o) = (ret ≡ true) × (o.libconfigcfg ≡ true)

switch_all-fails : (ss : List Scanned) (o : Options) → ¬ IsGood (switch_all ss false o)
unfolding switch_all
switch_all-fails [] o (h, g) = cc
switch_all-fails (s ∷ ss) o h = elim (step_cases s false o) [
  | inl (a, e) ↦ subst IsGood (switch_all-exits s ss false o e) h
  | inr (inl (o', e, a, b)) ↦
      switch_all-fails ss o' (subst IsGood (switch_all-goes_on s ss false false o o' e) h)
  | inr (inr (inl (o', e, a, b, c))) ↦
      switch_all-fails ss o' (subst IsGood (switch_all-goes_on s ss false false o o' e) h)
  | inr (inr (inr (e, a, b))) ↦
      switch_all-fails ss o (subst IsGood (switch_all-goes_on s ss false false o o e) h)
]

not_h : (s : Scanned) → IsKnown s → s.code ≢ "h"
not_h s (inl e) h = ground (arith, eq_iff "c" "h", sym e ∙ h)
not_h s (inr (inl e)) h = ground (arith, eq_iff "o" "h", sym e ∙ h)
not_h s (inr (inr e)) h = ground (arith, eq_iff "r" "h", sym e ∙ h)

switch_all_iff :
    (ss : List Scanned) (o : Options)
    → IsGood (switch_all ss true o) ↔ (All IsKnown ss × ((o.libconfigcfg ≡ true) ⊎ Any IsConfig ss))
unfolding switch_all
switch_all_iff [] o = ((λ (a, b). (tt, inl b)), (λ (a, b). (refl, only b)))
  where
    only : (o.libconfigcfg ≡ true) ⊎ Any IsConfig [] → o.libconfigcfg ≡ true
    only (inl e) = e
    only (inr h) = absurd h
switch_all_iff (s ∷ ss) o = elim (step_cases s true o) [
  | inl (a, e) ↦ (
    (λ h. absurd (subst IsGood (switch_all-exits s ss true o e) h)),
    (λ (k, c). absurd (not_h s k.0 a)),
  )
  | inr (inl (o', e, a, b)) ↦ (
    (λ h.
        let all =
          (switch_all_iff ss o').0 (subst IsGood (switch_all-goes_on s ss true true o o' e) h) in
        ((inl a, all.0), inr (inl a))),
    (λ (k, c).
        subst IsGood (sym (switch_all-goes_on s ss true true o o' e))
          ((switch_all_iff ss o').1 (k.1, inl b))),
  )
  | inr (inr (inl (o', e, a, n, b))) ↦ (
    (λ h.
        let all =
          (switch_all_iff ss o').0 (subst IsGood (switch_all-goes_on s ss true true o o' e) h) in
        ((a, all.0), later o' b all.1)),
    (λ (k, c).
        subst IsGood (sym (switch_all-goes_on s ss true true o o' e))
          ((switch_all_iff ss o').1 (k.1, earlier o' b n c))),
  )
  | inr (inr (inr (e, a, n))) ↦ (
    (λ h.
        absurd (switch_all-fails ss o (subst IsGood (switch_all-goes_on s ss true false o o e) h))),
    (λ (k, c). absurd (n k.0)),
  )
]
  where
    later :
        (o' : Options)
        → o'.libconfigcfg ≡ o.libconfigcfg
        → (o'.libconfigcfg ≡ true) ⊎ Any IsConfig ss
        → (o.libconfigcfg ≡ true) ⊎ Any IsConfig (s ∷ ss)
    later o' e (inl h) = inl (sym e ∙ h)
    later o' e (inr h) = inr (inr h)

    earlier :
        (o' : Options)
        → o'.libconfigcfg ≡ o.libconfigcfg
        → s.code ≢ "c"
        → (o.libconfigcfg ≡ true) ⊎ Any IsConfig (s ∷ ss)
        → (o'.libconfigcfg ≡ true) ⊎ Any IsConfig ss
    earlier o' e n (inl h) = inl (e ∙ h)
    earlier o' e n (inr (inl h)) = absurd (n h)
    earlier o' e n (inr (inr h)) = inr h

-- The code is the `val` of the long option `libconfigcfg`.
abbrev pub IsLongConfig : Scanned → Type 0
IsLongConfig s = Any (λ (l : LongOption). (l.name ≡ "libconfigcfg") × (s.code ≡ l.val)) long_options

IsKnown-not_long : (s : Scanned) → IsKnown s → ¬ IsLongConfig s
unfolding long_options
IsKnown-not_long s k (inl (n, c)) = ground (arith, eq_iff "help" "libconfigcfg", n)
IsKnown-not_long s (inl k) (inr (inl (n, c))) = ground (arith, eq_iff "c" "f", sym k ∙ c)
IsKnown-not_long s (inr (inl k)) (inr (inl (n, c))) = ground (arith, eq_iff "o" "f", sym k ∙ c)
IsKnown-not_long s (inr (inr k)) (inr (inl (n, c))) = ground (arith, eq_iff "r" "f", sym k ∙ c)
IsKnown-not_long s k (inr (inr (inl (n, c)))) = ground (arith, eq_iff "stdoutlog" "libconfigcfg", n)
IsKnown-not_long s k (inr (inr (inr (inl (n, c))))) =
    ground (arith, eq_iff "rotatelog" "libconfigcfg", n)
IsKnown-not_long s k (inr (inr (inr (inr h)))) = h

module _ (getopt_long : GetoptLong) (argv : List String) (o : Options) where
  -- What `getopt_long` finds in the arguments.
  abbrev pub scanned : List Scanned
  scanned = getopt_long short_options long_options argv

  Accepts-IsGood :
      (out : Outcome)
      → parse_input_options getopt_long argv o ≡ out
      → Accepts (parse getopt_long argv o) ↔ IsGood out
  unfolding parse
  Accepts-IsGood exits e = rw (parse, e) ((λ (o', f). absurd (cc)), (λ h. absurd h))
  Accepts-IsGood (returned ret o₁) e =
      rw (parse, e)
        ((λ (o', f). both ret o₁.libconfigcfg (ap result_of f)), (λ (a, b). (o₁, ground arith)))
    where
      result_of : Outcome → Bool
      result_of exits = false
      result_of (returned r o') = r

      both : (a b : Bool) → (a && b) ≡ true → (a ≡ true) × (b ≡ true)
      both a b h = ground arith

  -- A command line is accepted exactly if each option that `getopt_long` finds in it has the code c, o or
  -- r, and a configuration file is given, by the code c or by an earlier call.
  pub parse_iff :
      Accepts (parse getopt_long argv o)
      ↔ (All IsKnown scanned × ((o.libconfigcfg ≡ true) ⊎ Any IsConfig scanned))
  unfolding parse_input_options
  parse_iff =
      let a = Accepts-IsGood (switch_all scanned true o) refl in
      let b = switch_all_iff scanned o in ((λ h. b.0 (a.0 h)), (λ h. a.1 (b.1 h)))

  -- A long option `libconfigcfg` in the arguments, which the usage text offers for the configuration
  -- file, has the command line refused: `getopt_long` returns the `val` of that option, and the program
  -- does not act on it.
  pub long_libconfigcfg_refused : Any IsLongConfig scanned → ¬ Accepts (parse getopt_long argv o)
  long_libconfigcfg_refused h a =
      All-not-Any IsLongConfig IsKnown IsKnown-not_long scanned (parse_iff.0 a).0 h
