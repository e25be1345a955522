-- ===== src/Config/Parse/WellFormed.antt =====
-- An invariant of the configuration, which the parsing keeps however it ends.
use oai_cn5g_nssf.Base.{
  String, ℤ, ◌≡◌, refl, subst, Bool, true, false, Option, none, some, List, [], ◌∷◌, ◌++◌, All,
  length, inl, inr, Option-cases, if◌then◌else◌,
}
use oai_cn5g_nssf.Model.{Model}
use oai_cn5g_nssf.Config.{NsiInfo, AmfInfo, NssfConfig}
use oai_cn5g_nssf.Config.Yaml.{
  Yaml, loaded, bad_file, malformed, ◌>>=◌, set_if, text_at, int_at, text_if_at,
}
use oai_cn5g_nssf.Config.Parse.{
  push_entries, Parsed, returned, thrown, nsi_entry, parse_nsi_info, amf_list_entry, parse_amf_list,
  amf_entry, parse_amf_info, in_section, parse_nsi_section, parse_ta_section, parse_amf_section,
  parse_config,
}
use oai_cn5g_nssf.Config.Parse.Loop.{push_step, push_stop}
use oai_cn5g_nssf.Selection.Compare.Key.{HasPlainSd}

-- What an action returns, if it returns, has the property.
unfoldable Ensures : {A : Type 0} → (A → Type 0) → Option A → Type 0
Ensures P none = Unit
Ensures P (some a) = P a

Ensures-bind :
    {A B : Type 0} (P : B → Type 0) (o : Option A) (f : A → Option B)
    → ((a : A) → Ensures P (f a))
    → Ensures P (o >>= f)
unfolding Ensures
Ensures-bind P none f h = tt
Ensures-bind P (some a) f h = h a

ensured : {A : Type 0} (P : A → Type 0) (a : A) → P a → Ensures P (some a)
unfolding Ensures
ensured P a h = h

Ensures-eq : {A : Type 0} (P : A → Type 0) (o : Option A) (a : A) → o ≡ some a → Ensures P o → P a
unfolding Ensures
Ensures-eq P o a e h = subst (Ensures P) e h

Ensures-if :
    {A : Type 0} (P : A → Type 0) (b : Bool) (a : A) → P a → Ensures P (if b then some a else none)
unfolding Ensures
Ensures-if P true a h = h
Ensures-if P false a h = tt

All-snoc :
    {A : Type 0} (P : A → Type 0) (xs : List A) (a : A) → All P xs → P a → All P (xs ++ a ∷ [])
All-snoc P [] a all p = (p, tt)
All-snoc P (x ∷ xs) a (q, all) p = (q, All-snoc P xs a all p)

-- The loop keeps what every entry has.
push_entries-All :
    {N A : Type 0} (P : A → Type 0) (entry : N → Option A)
    → ((n : N) → Ensures P (entry n))
    → (ns : List N) (out : List A) → All P out
    → All P (push_entries entry ns out).1
push_entries-All P entry h [] out all = all
push_entries-All P entry h (n ∷ ns) out all = elim (Option-cases (entry n)) [
  | inl e ↦ rw (push_stop entry n ns out e) all
  | inr (a, e) ↦
      let p = Ensures-eq P (entry n) a e (h n) in
      rw (push_step entry n ns a out e)
        (push_entries-All P entry h ns (out ++ a ∷ []) (All-snoc P out a all p))
]

module _ (m : Model) where
  open m use {snssai.{init as snssai_init, set_sst, set_sd}}

  -- The entry for a slice instance names a slice with an empty SD where none is set.
  abbrev pub NamesPlain : NsiInfo m → Type 0
  NamesPlain item = HasPlainSd m item.snssai

  -- Each AMF of the AMF set has the data of one tracking area.
  abbrev pub HasOneArea : AmfInfo m → Type 0
  HasOneArea set = All (λ amf. length amf.1 ≡ 1) set.amf_list

  abbrev pub IsWellFormed : NssfConfig m → Type 0
  IsWellFormed cfg = All NamesPlain cfg.nsi_info_list × All HasOneArea cfg.amf_info_list

  -- The configuration that the parsing leaves.
  abbrev pub config_of : Parsed m → NssfConfig m
  config_of (returned good cfg) = cfg
  config_of (thrown cfg) = cfg

  fresh-HasPlainSd :
      (sst : ℤ) (sd : Option String) → HasPlainSd m (set_if set_sd (set_sst snssai_init sst) sd)
  fresh-HasPlainSd sst none = rw (m.snssai.get-set_sst) (λ unset. m.snssai.init_sd)
  fresh-HasPlainSd sst (some sd) = rw (m.snssai.get-set_sd) (λ unset. absurd (cc))

  module _ (y : Yaml) where
    open y use {Node, child, children, is_defined, load_file}

    nsi_entry-NamesPlain : (n : Node) → Ensures NamesPlain (nsi_entry m y n)
    unfolding nsi_entry
    nsi_entry-NamesPlain n = Ensures-bind _ (child n "nsiInformationList") _ (λ info.
        Ensures-bind _ (text_at y info "nrfId") _ (λ nrf_id.
          Ensures-bind _ (text_if_at y info "nsiId") _ (λ nsi_id.
            Ensures-bind _ (text_if_at y info "nrfNfMgtUri") _ (λ uri.
              Ensures-bind _ (child n "snssai") _ (λ slice.
                Ensures-bind _ (int_at y slice "sst") _ (λ sst.
                  Ensures-bind _ (text_if_at y slice "sd") _
                    (λ sd. ensured NamesPlain _ (fresh-HasPlainSd sst sd))))))))

    amf_list_entry-one : (n : Node) → Ensures (λ amf. length amf.1 ≡ 1) (amf_list_entry m y n)
    unfolding amf_list_entry
    amf_list_entry-one n = Ensures-bind _ (child n "supportedNssaiAvailabilityData") _ (λ conf.
        Ensures-bind _ (text_at y n "nfId") _ (λ nf_id. ensured (λ amf. length amf.1 ≡ 1) _ refl))

    amf_entry-HasOneArea : (n : Node) → Ensures HasOneArea (amf_entry m y n)
    unfolding amf_entry parse_amf_list
    amf_entry-HasOneArea n = Ensures-bind _ (text_at y n "targetAmfSet") _ (λ target.
        Ensures-bind _ (text_at y n "nrfAmfSet") _ (λ nrf.
          Ensures-bind _ (text_at y n "nrfAmfSetNfMgtUri") _ (λ mgt.
            Ensures-bind _ (child n "amfList") _ (λ conf. Ensures-if HasOneArea _ _ (
              push_entries-All (λ amf. length amf.1 ≡ 1) (amf_list_entry m y) amf_list_entry-one
                (children conf) [] tt)))))

    parse_nsi_info-NamesPlain :
        (conf : Node) (items : List (NsiInfo m))
        → All NamesPlain items
        → All NamesPlain (parse_nsi_info m y conf items).1
    unfolding parse_nsi_info
    parse_nsi_info-NamesPlain conf items =
        push_entries-All NamesPlain (nsi_entry m y) nsi_entry-NamesPlain (children conf) items

    parse_amf_info-HasOneArea :
        (conf : Node) (sets : List (AmfInfo m))
        → All HasOneArea sets
        → All HasOneArea (parse_amf_info m y conf sets).1
    unfolding parse_amf_info
    parse_amf_info-HasOneArea conf sets =
        push_entries-All HasOneArea (amf_entry m y) amf_entry-HasOneArea (children conf) sets

    in_section-IsWellFormed :
        (doc : Node) (name : String) (cfg : NssfConfig m) (parse : Node → NssfConfig m)
        (next : NssfConfig m → Parsed m)
        → IsWellFormed cfg
        → ((s : Node) → IsWellFormed (config_of (next (parse s))))
        → IsWellFormed (config_of (in_section m y doc name cfg parse next))
    unfolding in_section
    in_section-IsWellFormed doc name cfg parse next w h =
        elim (do c ← y.child_or_new doc "configuration"; y.child_or_new c name)
          as (λ o. IsWellFormed (
            config_of (elim o [
              | none ↦ thrown cfg
              | some section ↦
                  if is_defined section then next (parse section) else returned false cfg
            ]))) [ none ↦ w | some section ↦ by_defined (is_defined section) section ]
      where
        by_defined :
            (b : Bool) (s : Node)
            → IsWellFormed (config_of (if b then next (parse s) else returned false cfg))
        by_defined true s = h s
        by_defined false s = w

    parse_amf_section-IsWellFormed :
        (doc : Node) (cfg : NssfConfig m)
        → IsWellFormed cfg
        → IsWellFormed (config_of (parse_amf_section m y doc cfg))
    unfolding parse_amf_section
    parse_amf_section-IsWellFormed doc cfg (nsi, amf) =
        in_section-IsWellFormed doc "amfInfoList" cfg _ (returned true) (nsi, amf)
          (λ s. (nsi, parse_amf_info-HasOneArea s cfg.amf_info_list amf))

    parse_ta_section-IsWellFormed :
        (doc : Node) (cfg : NssfConfig m)
        → IsWellFormed cfg
        → IsWellFormed (config_of (parse_ta_section m y doc cfg))
    unfolding parse_ta_section
    parse_ta_section-IsWellFormed doc cfg w =
        in_section-IsWellFormed doc "taInfoList" cfg _ (parse_amf_section m y doc) w
          (λ s. parse_amf_section-IsWellFormed doc _ w)

    parse_nsi_section-IsWellFormed :
        (doc : Node) (cfg : NssfConfig m)
        → IsWellFormed cfg
        → IsWellFormed (config_of (parse_nsi_section m y doc cfg))
    unfolding parse_nsi_section
    parse_nsi_section-IsWellFormed doc cfg (nsi, amf) =
        in_section-IsWellFormed doc "nsiInfoList" cfg _ (parse_ta_section m y doc) (nsi, amf)
          (λ s.
            parse_ta_section-IsWellFormed doc _
              (parse_nsi_info-NamesPlain s cfg.nsi_info_list nsi, amf))

    -- However the parsing of a file ends, it keeps a configuration well-formed: the entries for slice
    -- instances name slices with an empty SD where none is set, and each AMF has one tracking area.
    pub parse_config-IsWellFormed :
        (path : String) (cfg : NssfConfig m)
        → IsWellFormed cfg
        → IsWellFormed (config_of (parse_config m y path cfg))
    unfolding parse_config
    parse_config-IsWellFormed path cfg w =
        elim (load_file path)
          as (λ r. IsWellFormed (
            config_of (elim r [
              | bad_file ↦ returned false cfg
              | malformed ↦ thrown cfg
              | loaded doc ↦ parse_nsi_section m y doc cfg
            ]))) [
              | bad_file ↦ w
              | malformed ↦ w
              | loaded doc ↦ parse_nsi_section-IsWellFormed doc cfg w
            ]
