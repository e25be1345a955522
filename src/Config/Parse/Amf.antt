-- ===== src/Config/Parse/Amf.antt =====
-- The AMF sets of a configuration are parsed to what it describes, less the MNC of their tracking areas.
use oai_cn5g_nssf.Base.{String, ◌≡◌, refl, true, some, List, [], ◌∷◌, ◌++◌, map}
use oai_cn5g_nssf.Model.{Model}
use oai_cn5g_nssf.Config.{AmfInfo}
use oai_cn5g_nssf.Config.Yaml.{Yaml, set_if}
use oai_cn5g_nssf.Config.Parse.{
  nssai_tai, ext_entry, nssai_list, parse_nssai, amf_list_entry, parse_amf_list, amf_entry,
  parse_amf_info,
}
use oai_cn5g_nssf.Config.Parse.Loop.{
  All₂, All₂-map, All₂-map_right, Gives, push_entries-Gives, collect-Gives,
}
use oai_cn5g_nssf.Config.Parse.Describe.{
  SliceSettings, TaSettings, slice_attributes, At, HasText, DescribesSlice, DescribesTa,
  text_at-HasText, int_at-HasInt, text_if_at-MayHaveText, get-set_settings,
}

pub record AmfSettings : Type 0 where
  pub nf_id : String
  pub ta : TaSettings
  pub slices : List SliceSettings

pub record AmfSetSettings : Type 0 where
  pub target_amf_set : String
  pub nrf_amf_set : String
  pub nrf_amf_set_mgt : String
  pub amfs : List AmfSettings

module _ (m : Model) (y : Yaml) where
  open y use {Node, children}
  open m use {
    ext_snssai.{Object as ExtSnssai, get as get_ext},
    location.{
      Tai, get_plmn, get_plmn_id, get_tac, plmn_id_init, set_mcc, tai_init, set_plmn_id, set_tac,
    },
    AvailabilityData,
    availability_data_init,
    set_tai,
    get_tai,
    set_supported_snssai_list,
    get_supported_snssai_list,
  }

  abbrev pub DescribesAmf : Node → AmfSettings → Type 0
  DescribesAmf n s =
      At y n "supportedNssaiAvailabilityData" (λ conf.
        DescribesTa y conf s.ta
        × At y conf "supportedSnssaiList" (λ l. All₂ (DescribesSlice y) (children l) s.slices))
      × HasText y n "nfId" s.nf_id

  abbrev pub DescribesAmfSet : Node → AmfSetSettings → Type 0
  DescribesAmfSet n s =
      HasText y n "targetAmfSet" s.target_amf_set
      × HasText y n "nrfAmfSet" s.nrf_amf_set
      × HasText y n "nrfAmfSetNfMgtUri" s.nrf_amf_set_mgt
      × At y n "amfList" (λ l. All₂ DescribesAmf (children l) s.amfs)

  -- Availability data has the settings; its tracking area has no MNC.
  abbrev pub HasData : TaSettings → List SliceSettings → AvailabilityData → Type 0
  HasData ta slices d =
      (get_plmn (get_plmn_id (get_tai d)) ≡ record { mcc = ta.mcc; mnc = "" })
      × (get_tac (get_tai d) ≡ ta.tac)
      × (map get_ext (get_supported_snssai_list d) ≡ map slice_attributes slices)

  abbrev pub HasAmfSettings : AmfSettings → String × List AvailabilityData → Type 0
  HasAmfSettings s (nf_id, ds) =
      (nf_id ≡ s.nf_id) × ((d : AvailabilityData) × (ds ≡ d ∷ []) × HasData s.ta s.slices d)

  abbrev pub HasAmfSetSettings : AmfSetSettings → AmfInfo m → Type 0
  HasAmfSetSettings s item =
      (item.target_amf_set ≡ s.target_amf_set)
      × (item.nrf_amf_set ≡ s.nrf_amf_set)
      × (item.nrf_amf_set_mgt ≡ s.nrf_amf_set_mgt)
      × All₂ HasAmfSettings s.amfs item.amf_list

  tai_item : TaSettings → Tai
  tai_item s = set_plmn_id (set_tac tai_init s.tac) (set_mcc (set_mcc plmn_id_init s.mcc) s.mcc)

  ext_item : SliceSettings → ExtSnssai
  ext_item s = set_if m.ext_snssai.set_sd (m.ext_snssai.set_sst m.ext_snssai.init s.sst) s.sd

  data_item : TaSettings → List SliceSettings → AvailabilityData → AvailabilityData
  data_item ta slices d = set_supported_snssai_list (set_tai d (tai_item ta)) (map ext_item slices)

  amf_item : AmfSettings → String × List AvailabilityData
  amf_item s = (s.nf_id, data_item s.ta s.slices availability_data_init ∷ [])

  amf_set_item : AmfSetSettings → AmfInfo m
  amf_set_item s = record {
    target_amf_set = s.target_amf_set;
    nrf_amf_set = s.nrf_amf_set;
    nrf_amf_set_mgt = s.nrf_amf_set_mgt;
    amf_list = map amf_item s.amfs;
  }

  get-ext_item :
      (slices : List SliceSettings)
      → map get_ext (map ext_item slices) ≡ map slice_attributes slices
  unfolding ext_item
  get-ext_item [] = refl
  get-ext_item (s ∷ slices) = rw (get-set_settings m.ext_snssai s, get-ext_item slices)

  data_item-HasData :
      (ta : TaSettings) (slices : List SliceSettings) (d : AvailabilityData)
      → HasData ta slices (data_item ta slices d)
  unfolding data_item tai_item
  data_item-HasData ta slices d = (
    rw (
      m.get_tai-set_supported_snssai_list, m.get-set_tai, m.location.get-set_plmn_id,
      m.location.get-set_mcc, m.location.get-set_mcc, m.location.get-plmn_id_init,
    ),
    rw (
      m.get_tai-set_supported_snssai_list, m.get-set_tai, m.location.get_tac-set_plmn_id,
      m.location.get-set_tac,
    ),
    rw m.get-set_supported_snssai_list (get-ext_item slices),
  )

  nssai_tai-DescribesTa :
      (n : Node) (s : TaSettings) → DescribesTa y n s → nssai_tai m y n ≡ some (tai_item s)
  unfolding nssai_tai tai_item
  nssai_tai-DescribesTa n s (tai, e, ((plmn, f, (mcc, mnc)), tac)) =
      rw (e, text_at-HasText y tai "tac" s.tac tac, f, text_at-HasText y plmn "mcc" s.mcc mcc)

  ext_entry-DescribesSlice :
      (n : Node) (s : SliceSettings) → DescribesSlice y n s → ext_entry m y n ≡ some (ext_item s)
  unfolding ext_entry ext_item
  ext_entry-DescribesSlice n s (sst, sd) =
      rw (int_at-HasInt y n "sst" s.sst sst, text_if_at-MayHaveText y n "sd" s.sd sd)

  nssai_list_lem :
      (n : Node) (slices : List SliceSettings)
      → At y n "supportedSnssaiList" (λ l. All₂ (DescribesSlice y) (children l) slices)
      → nssai_list m y n ≡ some (map ext_item slices)
  unfolding nssai_list
  nssai_list_lem n slices (l, e, described) = rw e (
      collect-Gives (ext_entry m y) (children l) (map ext_item slices) (
        All₂-map_right (DescribesSlice y) (Gives (ext_entry m y)) ext_item (children l) slices
          ext_entry-DescribesSlice described))

  parse_nssai-data_item :
      (n : Node) (ta : TaSettings) (slices : List SliceSettings) (d : AvailabilityData)
      → DescribesTa y n ta
      → At y n "supportedSnssaiList" (λ l. All₂ (DescribesSlice y) (children l) slices)
      → parse_nssai m y n d ≡ (true, data_item ta slices d)
  unfolding parse_nssai data_item
  parse_nssai-data_item n ta slices d f g =
      rw (parse_nssai, nssai_tai-DescribesTa n ta f, nssai_list_lem n slices g)

  amf_list_entry-DescribesAmf :
      (n : Node) (s : AmfSettings) → DescribesAmf n s → amf_list_entry m y n ≡ some (amf_item s)
  unfolding amf_list_entry amf_item
  amf_list_entry-DescribesAmf n s ((conf, e, (f, g)), nf_id) = rw (
    e,
    parse_nssai-data_item conf s.ta s.slices availability_data_init f g,
    text_at-HasText y n "nfId" s.nf_id nf_id,
  )

  amf_entry-DescribesAmfSet :
      (n : Node) (s : AmfSetSettings)
      → DescribesAmfSet n s
      → amf_entry m y n ≡ some (amf_set_item s)
  unfolding amf_entry parse_amf_list amf_set_item
  amf_entry-DescribesAmfSet n s (target, nrf, mgt, (l, e, described)) = rw (
    text_at-HasText y n "targetAmfSet" s.target_amf_set target,
    text_at-HasText y n "nrfAmfSet" s.nrf_amf_set nrf,
    text_at-HasText y n "nrfAmfSetNfMgtUri" s.nrf_amf_set_mgt mgt,
    e,
    push_entries-Gives (amf_list_entry m y) (children l) (map amf_item s.amfs) [] (
        All₂-map_right DescribesAmf (Gives (amf_list_entry m y)) amf_item (children l) s.amfs
          amf_list_entry-DescribesAmf described),
  )

  amf_set_item-HasAmfSetSettings : (s : AmfSetSettings) → HasAmfSetSettings s (amf_set_item s)
  unfolding amf_set_item amf_item
  amf_set_item-HasAmfSetSettings s = (
    refl,
    refl,
    refl,
    All₂-map HasAmfSettings amf_item s.amfs
        (λ a. (refl, (_, refl, data_item-HasData a.ta a.slices availability_data_init))),
  )

  -- A section whose nodes describe AMF sets is parsed without an error, and appends one AMF set for
  -- each, in order, with the names, the AMFs, the slices and the tracking areas that it describes; but
  -- the PLMN of each of these tracking areas has an empty MNC, whatever the configuration says.
  pub parse_amf_info_lem :
      (conf : Node) (settings : List AmfSetSettings) (old : List (AmfInfo m))
      → All₂ DescribesAmfSet (children conf) settings
      → (items : List (AmfInfo m)) × (parse_amf_info m y conf old ≡ (true, old ++ items))
        × All₂ HasAmfSetSettings settings items
  unfolding parse_amf_info
  parse_amf_info_lem conf settings old described = (
    map amf_set_item settings,
    push_entries-Gives (amf_entry m y) (children conf) (map amf_set_item settings) old (
        All₂-map_right DescribesAmfSet (Gives (amf_entry m y)) amf_set_item (children conf) settings
          amf_entry-DescribesAmfSet described),
    All₂-map HasAmfSetSettings amf_set_item settings amf_set_item-HasAmfSetSettings,
  )
