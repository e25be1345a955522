-- ===== src/Config/Parse/Nsi.antt =====
-- The slice instances and the tracking areas of a configuration are parsed to what it describes.
use oai_cn5g_nssf.Base.{String, ◌≡◌, ◌||◌, true, Option, none, some, List, ◌++◌, map, if◌then◌else◌}
use oai_cn5g_nssf.Model.{Model, NsiAttributes}
use oai_cn5g_nssf.Config.{NsiInfo, TaInfo}
use oai_cn5g_nssf.Config.Yaml.{Yaml, set_if}
use oai_cn5g_nssf.Config.Parse.{nsi_entry, parse_nsi_info, ta_entry, parse_ta_info}
use oai_cn5g_nssf.Config.Parse.Loop.{All₂, All₂-map, All₂-map_right, Gives, push_entries-Gives}
use oai_cn5g_nssf.Config.Parse.Describe.{
  text_or_empty, is_given, NsiSettings, TaSettings, slice_attributes, DescribesNsi, DescribesTa,
  text_at-HasText, int_at-HasInt, text_if_at-MayHaveText, get-set_settings,
}

-- What the settings of a slice instance leave of the attributes that it had.
abbrev pub with_settings : NsiSettings → NsiAttributes → NsiAttributes
with_settings s a = record {
  nrf_id = s.nrf_id;
  nsi_id_is_set = is_given s.nsi_id || a.nsi_id_is_set;
  nsi_id = if is_given s.nsi_id then text_or_empty s.nsi_id else a.nsi_id;
  nrf_nf_mgt_uri_is_set = is_given s.nrf_nf_mgt_uri || a.nrf_nf_mgt_uri_is_set;
  nrf_nf_mgt_uri =
      if is_given s.nrf_nf_mgt_uri then text_or_empty s.nrf_nf_mgt_uri else a.nrf_nf_mgt_uri;
}

module _ (m : Model) (y : Yaml) where
  open y use {Node, children}

  -- An entry of the configuration has the settings.
  abbrev pub HasNsiSettings : NsiSettings → NsiInfo m → Type 0
  HasNsiSettings s item =
      (m.snssai.get item.snssai ≡ slice_attributes s.slice)
      × (m.nsi.get item.nsi_info ≡ with_settings s (m.nsi.get m.nsi.init))

  abbrev pub HasTaSettings : TaSettings → TaInfo m → Type 0
  HasTaSettings s item =
      (m.location.get_plmn (m.location.get_plmn_id item.tai) ≡ record { mcc = s.mcc; mnc = s.mnc })
      × (m.location.get_tac item.tai ≡ s.tac)

  abbrev nsi_item : NsiSettings → NsiInfo m
  nsi_item s = record {
    snssai = set_if m.snssai.set_sd (m.snssai.set_sst m.snssai.init s.slice.sst) s.slice.sd;
    nsi_info =
        set_if m.nsi.set_nrf_nf_mgt_uri
          (set_if m.nsi.set_nsi_id (m.nsi.set_nrf_id m.nsi.init s.nrf_id) s.nsi_id)
          s.nrf_nf_mgt_uri;
  }

  get-nsi_item :
      (nrf_id : String) (nsi_id uri : Option String)
      → m.nsi.get (
          set_if m.nsi.set_nrf_nf_mgt_uri
            (set_if m.nsi.set_nsi_id (m.nsi.set_nrf_id m.nsi.init nrf_id) nsi_id)
            uri)
        ≡ record {
          nrf_id = nrf_id;
          nsi_id_is_set = is_given nsi_id || (m.nsi.get m.nsi.init).nsi_id_is_set;
          nsi_id = if is_given nsi_id then text_or_empty nsi_id else (m.nsi.get m.nsi.init).nsi_id;
          nrf_nf_mgt_uri_is_set = is_given uri || (m.nsi.get m.nsi.init).nrf_nf_mgt_uri_is_set;
          nrf_nf_mgt_uri =
              if is_given uri then text_or_empty uri else (m.nsi.get m.nsi.init).nrf_nf_mgt_uri;
        }
  get-nsi_item nrf_id none none = simp m.nsi.get-set_nrf_id
  get-nsi_item nrf_id none (some u) = simp (m.nsi.get-set_nrf_id, m.nsi.get-set_nrf_nf_mgt_uri)
  get-nsi_item nrf_id (some i) none = simp (m.nsi.get-set_nrf_id, m.nsi.get-set_nsi_id)
  get-nsi_item nrf_id (some i) (some u) =
      simp (m.nsi.get-set_nrf_id, m.nsi.get-set_nsi_id, m.nsi.get-set_nrf_nf_mgt_uri)

  nsi_item-HasNsiSettings : (s : NsiSettings) → HasNsiSettings s (nsi_item s)
  nsi_item-HasNsiSettings s =
      (get-set_settings m.snssai s.slice, get-nsi_item s.nrf_id s.nsi_id s.nrf_nf_mgt_uri)

  nsi_entry-DescribesNsi :
      (n : Node) (s : NsiSettings) → DescribesNsi y n s → nsi_entry m y n ≡ some (nsi_item s)
  unfolding nsi_entry
  nsi_entry-DescribesNsi n s ((info, e, (nrf_id, nsi_id, uri)), (slice, f, (sst, sd))) = rw (
    e,
    text_at-HasText y info "nrfId" s.nrf_id nrf_id,
    text_if_at-MayHaveText y info "nsiId" s.nsi_id nsi_id,
    text_if_at-MayHaveText y info "nrfNfMgtUri" s.nrf_nf_mgt_uri uri,
    f,
    int_at-HasInt y slice "sst" s.slice.sst sst,
    text_if_at-MayHaveText y slice "sd" s.slice.sd sd,
  )

  ta_item : TaSettings → TaInfo m
  ta_item s = record {
    tai =
        m.location.set_tac
          (m.location.set_plmn_id m.location.tai_init
            (m.location.set_mnc (m.location.set_mcc m.location.plmn_id_init s.mcc) s.mnc))
          s.tac;
  }

  ta_item-HasTaSettings : (s : TaSettings) → HasTaSettings s (ta_item s)
  unfolding ta_item
  ta_item-HasTaSettings s = (
    rw (
      m.location.get_plmn_id-set_tac, m.location.get-set_plmn_id, m.location.get-set_mnc,
      m.location.get-set_mcc,
    ),
    m.location.get-set_tac _ s.tac,
  )

  ta_entry-DescribesTa :
      (n : Node) (s : TaSettings) → DescribesTa y n s → ta_entry m y n ≡ some (ta_item s)
  unfolding ta_entry ta_item
  ta_entry-DescribesTa n s (tai, e, ((plmn, f, (mcc, mnc)), tac)) = rw (
    e,
    f,
    text_at-HasText y plmn "mcc" s.mcc mcc,
    text_at-HasText y plmn "mnc" s.mnc mnc,
    text_at-HasText y tai "tac" s.tac tac,
  )

  -- A section whose nodes describe slice instances is parsed without an error, and appends one entry
  -- for each, in order, with the attributes that it describes.
  pub parse_nsi_info_lem :
      (conf : Node) (settings : List NsiSettings) (old : List (NsiInfo m))
      → All₂ (DescribesNsi y) (children conf) settings
      → (items : List (NsiInfo m)) × (parse_nsi_info m y conf old ≡ (true, old ++ items))
        × All₂ HasNsiSettings settings items
  unfolding parse_nsi_info
  parse_nsi_info_lem conf settings old described = (
    map nsi_item settings,
    push_entries-Gives (nsi_entry m y) (children conf) (map nsi_item settings) old (
        All₂-map_right (DescribesNsi y) (Gives (nsi_entry m y)) nsi_item (children conf) settings
          nsi_entry-DescribesNsi described),
    All₂-map HasNsiSettings nsi_item settings nsi_item-HasNsiSettings,
  )

  -- A section whose nodes describe tracking areas is parsed without an error, and appends one entry for
  -- each, in order, with the PLMN and the tracking area code that it describes.
  pub parse_ta_info_lem :
      (conf : Node) (settings : List TaSettings) (old : List (TaInfo m))
      → All₂ (DescribesTa y) (children conf) settings
      → (items : List (TaInfo m)) × (parse_ta_info m y conf old ≡ (true, old ++ items))
        × All₂ HasTaSettings settings items
  unfolding parse_ta_info
  parse_ta_info_lem conf settings old described = (
    map ta_item settings,
    push_entries-Gives (ta_entry m y) (children conf) (map ta_item settings) old (
        All₂-map_right (DescribesTa y) (Gives (ta_entry m y)) ta_item (children conf) settings
          ta_entry-DescribesTa described),
    All₂-map HasTaSettings ta_item settings ta_item-HasTaSettings,
  )
