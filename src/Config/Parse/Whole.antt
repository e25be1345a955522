-- ===== src/Config/Parse/Whole.antt =====
-- What `parse_config` makes of a file, and when it says that it succeeded.
use oai_cn5g_nssf.Base.{
  String, ◌≡◌, refl, ap, subst, ◌∙◌, ◌↔◌, inl, inr, true, false, some, List, ◌++◌, Option-cases,
  Bool-cases,
}
use oai_cn5g_nssf.Model.{Model}
use oai_cn5g_nssf.Config.{NsiInfo, TaInfo, AmfInfo, NssfConfig}
use oai_cn5g_nssf.Config.Yaml.{Yaml, Loaded, loaded, bad_file, malformed}
use oai_cn5g_nssf.Config.Parse.{
  Parsed, returned, thrown, in_section, parse_nsi_section, parse_ta_section, parse_amf_section,
  parse_config, parse_nsi_info, parse_ta_info, parse_amf_info, nsi_entry,
}
use oai_cn5g_nssf.Config.Parse.Loop.{All₂, Pushes, push_entries-Pushes}
use oai_cn5g_nssf.Config.Parse.Describe.{NsiSettings, TaSettings, DescribesNsi, DescribesTa}
use oai_cn5g_nssf.Config.Parse.Nsi.{
  HasNsiSettings, HasTaSettings, parse_nsi_info_lem, parse_ta_info_lem,
}
use oai_cn5g_nssf.Config.Parse.Amf.{
  AmfSetSettings, DescribesAmfSet, HasAmfSetSettings, parse_amf_info_lem,
}

-- What a configuration file says.
pub record Settings : Type 0 where
  pub nsi_settings : List NsiSettings
  pub ta_settings : List TaSettings
  pub amf_set_settings : List AmfSetSettings

module _ (m : Model) (y : Yaml) where
  open y use {Node, child_or_new, children, is_defined, load_file}

  -- The document has a section, with the property.
  abbrev pub Section : Node → String → (Node → Type 0) → Type 0
  Section doc name P =
      (c : Node) × (s : Node) × (child_or_new doc "configuration" ≡ some c)
      × (child_or_new c name ≡ some s)
      × (is_defined s ≡ true)
      × P s

  -- The file has the three sections, each of which describes its settings.
  abbrev pub DescribesAll : String → Settings → Type 0
  DescribesAll path s =
      (doc : Node) × (load_file path ≡ loaded doc)
      × Section doc "nsiInfoList" (λ n. All₂ (DescribesNsi y) (children n) s.nsi_settings)
      × Section doc "taInfoList" (λ n. All₂ (DescribesTa y) (children n) s.ta_settings)
      × Section doc "amfInfoList" (λ n. All₂ (DescribesAmfSet m y) (children n) s.amf_set_settings)

  -- The file has the three sections, whatever they hold.
  abbrev pub HasSections : String → Type 0
  HasSections path =
      (doc : Node) × (load_file path ≡ loaded doc)
      × Section doc "nsiInfoList" (λ n. Unit)
      × Section doc "taInfoList" (λ n. Unit)
      × Section doc "amfInfoList" (λ n. Unit)

  -- The configuration holds what it held before, followed by the settings.
  abbrev pub Adds : NssfConfig m → Settings → NssfConfig m → Type 0
  Adds cfg s cfg' =
      ((items : List (NsiInfo m)) × (cfg'.nsi_info_list ≡ cfg.nsi_info_list ++ items)
        × All₂ (HasNsiSettings m y) s.nsi_settings items)
      × ((items : List (TaInfo m)) × (cfg'.ta_info_list ≡ cfg.ta_info_list ++ items)
          × All₂ (HasTaSettings m y) s.ta_settings items)
      × ((items : List (AmfInfo m)) × (cfg'.amf_info_list ≡ cfg.amf_info_list ++ items)
          × All₂ (HasAmfSetSettings m y) s.amf_set_settings items)

  in_section-Section :
      (doc : Node) (name : String) (P : Node → Type 0) (cfg : NssfConfig m)
      (parse : Node → NssfConfig m) (next : NssfConfig m → Parsed m) (sec : Section doc name P)
      → in_section m y doc name cfg parse next ≡ next (parse sec.1)
  unfolding in_section
  in_section-Section doc name P cfg parse next (c, s, e, f, g, p) = rw (in_section, e, f, g)

  -- The configuration after the three sections `s₁`, `s₂` and `s₃`, whatever their parsing returned.
  abbrev after_sections : NssfConfig m → Node → Node → Node → NssfConfig m
  after_sections cfg s₁ s₂ s₃ = record {
    nsi_info_list = (parse_nsi_info m y s₁ cfg.nsi_info_list).1;
    ta_info_list = (parse_ta_info m y s₂ cfg.ta_info_list).1;
    amf_info_list = (parse_amf_info m y s₃ cfg.amf_info_list).1;
  }

  parse_nsi_section-Section :
      (doc : Node) (cfg : NssfConfig m) (P Q R : Node → Type 0) (s₁ : Section doc "nsiInfoList" P)
      (s₂ : Section doc "taInfoList" Q) (s₃ : Section doc "amfInfoList" R)
      → parse_nsi_section m y doc cfg ≡ returned true (after_sections cfg s₁.1 s₂.1 s₃.1)
  unfolding parse_nsi_section parse_ta_section parse_amf_section
  parse_nsi_section-Section doc cfg P Q R s₁ s₂ s₃ =
      in_section-Section doc "nsiInfoList" P cfg
        (λ s. record cfg { nsi_info_list = (parse_nsi_info m y s cfg.nsi_info_list).1 })
        (parse_ta_section m y doc) s₁
      ∙ in_section-Section doc "taInfoList" Q with_nsi
          (λ s. record with_nsi { ta_info_list = (parse_ta_info m y s with_nsi.ta_info_list).1 })
          (parse_amf_section m y doc) s₂
      ∙ in_section-Section doc "amfInfoList" R with_ta
          (λ s. record with_ta { amf_info_list = (parse_amf_info m y s with_ta.amf_info_list).1 })
          (returned true) s₃
    where
      with_nsi : NssfConfig m
      with_nsi = record cfg { nsi_info_list = (parse_nsi_info m y s₁.1 cfg.nsi_info_list).1 }

      with_ta : NssfConfig m
      with_ta = record with_nsi { ta_info_list = (parse_ta_info m y s₂.1 cfg.ta_info_list).1 }

  parse_config-loaded :
      (path : String) (doc : Node) (cfg : NssfConfig m)
      → load_file path ≡ loaded doc
      → parse_config m y path cfg ≡ parse_nsi_section m y doc cfg
  unfolding parse_config
  parse_config-loaded path doc cfg e = rw (parse_config, e)

  -- A file whose three sections describe settings is parsed successfully, and the configuration then
  -- holds an entry for each of them, in order, behind those that it held before.
  pub parse_config-Adds :
      (path : String) (s : Settings) (cfg : NssfConfig m)
      → DescribesAll path s
      → (cfg' : NssfConfig m) × (parse_config m y path cfg ≡ returned true cfg') × Adds cfg s cfg'
  parse_config-Adds path s cfg (doc, e, s₁, s₂, s₃) =
      let nsi = parse_nsi_info_lem m y s₁.1 s.nsi_settings cfg.nsi_info_list s₁.5 in
      let ta = parse_ta_info_lem m y s₂.1 s.ta_settings cfg.ta_info_list s₂.5 in
      let amf = parse_amf_info_lem m y s₃.1 s.amf_set_settings cfg.amf_info_list s₃.5 in
      (
        after_sections cfg s₁.1 s₂.1 s₃.1,
        parse_config-loaded path doc cfg e ∙ parse_nsi_section-Section doc cfg _ _ _ s₁ s₂ s₃,
        (
          (nsi.0, ap (λ p. p.1) nsi.1, nsi.2),
          (ta.0, ap (λ p. p.1) ta.1, ta.2),
          (amf.0, ap (λ p. p.1) amf.1, amf.2),
        ),
      )

  -- The parsing ends with `true`.
  abbrev pub Succeeds : Parsed m → Type 0
  Succeeds p = (cfg : NssfConfig m) × (p ≡ returned true cfg)

  thrown-fails : (cfg : NssfConfig m) (p : Parsed m) → p ≡ thrown cfg → ¬ Succeeds p
  thrown-fails cfg p e (cfg', f) = cc

  false-fails : (cfg : NssfConfig m) (p : Parsed m) → p ≡ returned false cfg → ¬ Succeeds p
  false-fails cfg p e (cfg', f) = cc

  in_section-Succeeds :
      (doc : Node) (name : String) (cfg : NssfConfig m) (parse : Node → NssfConfig m)
      (next : NssfConfig m → Parsed m)
      → Succeeds (in_section m y doc name cfg parse next)
      → (sec : Section doc name (λ n. Unit)) × Succeeds (next (parse sec.1))
  unfolding in_section
  in_section-Succeeds doc name cfg parse next h =
      elim (Option-cases (child_or_new doc "configuration")) [
        | inl e ↦ absurd (thrown-fails cfg _ (rw (in_section, e)) h)
        | inr (c, e) ↦ elim (Option-cases (child_or_new c name)) [
          | inl f ↦ absurd (thrown-fails cfg _ (rw (in_section, e, f)) h)
          | inr (s, f) ↦ elim (Bool-cases (is_defined s)) [
            | inl g ↦
                let sec : Section doc name (λ n. Unit) = (c, s, e, f, g, tt) in
                (sec, subst Succeeds (in_section-Section doc name (λ n. Unit) cfg parse next sec) h)
            | inr g ↦ absurd (false-fails cfg _ (rw (in_section, e, f, g)) h)
          ]
        ]
      ]

  parse_nsi_section-Succeeds :
      (doc : Node) (cfg : NssfConfig m)
      → Succeeds (parse_nsi_section m y doc cfg)
      → Section doc "nsiInfoList" (λ n. Unit)
        × Section doc "taInfoList" (λ n. Unit)
        × Section doc "amfInfoList" (λ n. Unit)
  unfolding parse_nsi_section parse_ta_section parse_amf_section
  parse_nsi_section-Succeeds doc cfg h =
      let (s₁, h₁) = in_section-Succeeds doc "nsiInfoList" cfg _ (parse_ta_section m y doc) h in
      let (s₂, h₂) = in_section-Succeeds doc "taInfoList" _ _ (parse_amf_section m y doc) h₁ in
      let (s₃, h₃) = in_section-Succeeds doc "amfInfoList" _ _ (returned true) h₂ in (s₁, s₂, s₃)

  parse_config-Succeeds :
      (path : String) (cfg : NssfConfig m) → Succeeds (parse_config m y path cfg) → HasSections path
  unfolding parse_config
  parse_config-Succeeds path cfg h = by_load (load_file path) refl
    where
      by_load : (l : Loaded Node) → load_file path ≡ l → HasSections path
      by_load bad_file e = absurd (false-fails cfg _ (rw (parse_config, e)) h)
      by_load malformed e = absurd (thrown-fails cfg _ (rw (parse_config, e)) h)
      by_load (loaded doc) e =
          let (s₁, s₂, s₃) =
            parse_nsi_section-Succeeds doc cfg
              (subst Succeeds (parse_config-loaded path doc cfg e) h) in
          (doc, e, s₁, s₂, s₃)

  -- `parse_config` returns `true` exactly if the file can be loaded and has the three sections: the
  -- entries play no part, since the results of the functions that parse them are not looked at.
  pub parse_config_iff :
      (path : String) (cfg : NssfConfig m) → Succeeds (parse_config m y path cfg) ↔ HasSections path
  parse_config_iff path cfg = (
    parse_config-Succeeds path cfg,
    (λ (doc, e, s₁, s₂, s₃). (
      _,
      parse_config-loaded path doc cfg e
          ∙ parse_nsi_section-Section doc cfg (λ n. Unit) (λ n. Unit) (λ n. Unit) s₁ s₂ s₃,
    )),
  )

  -- Slice instances are pushed one by one: an entry that cannot be read ends the parsing with `false`,
  -- and those before it stay in the list.
  parse_nsi_info-Pushes :
      (conf : Node) (old : List (NsiInfo m))
      → Pushes (nsi_entry m y) (children conf) old (parse_nsi_info m y conf old)
  unfolding parse_nsi_info
  parse_nsi_info-Pushes conf old = push_entries-Pushes (nsi_entry m y) (children conf) old
