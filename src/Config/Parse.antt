-- ===== src/Config/Parse.antt =====
-- The parsing of the slice configuration: the functions of src/nssf_app/nssf_config.cpp. Each returns its
-- Boolean with the new value of its reference parameter, which keeps what was pushed before an
-- exception.
pub mod Loop
pub mod Describe
pub mod Nsi
pub mod Amf
pub mod Whole
pub mod WellFormed
use oai_cn5g_nssf.Base.{
  String, Bool, true, false, Option, none, some, List, [], ◌∷◌, ◌++◌, if◌then◌else◌,
}
use oai_cn5g_nssf.Model.{Model}
use oai_cn5g_nssf.Config.{NsiInfo, TaInfo, AmfInfo, NssfConfig}
use oai_cn5g_nssf.Config.Yaml.{
  Yaml, Loaded, loaded, bad_file, malformed, ◌>>=◌, set_if, text_at, int_at, text_if_at,
}

-- The loop of every parsing function: an entry is made from each node and pushed, until one throws.
abbrev pub push_entries : {N A : Type 0} → (N → Option A) → List N → List A → Bool × List A
push_entries entry [] out = (true, out)
push_entries entry (n ∷ ns) out = elim (entry n) [
  | none ↦ (false, out)
  | some a ↦ push_entries entry ns (out ++ a ∷ [])
]

-- A loop over a local list, which an exception discards.
abbrev pub collect : {N A : Type 0} → (N → Option A) → List N → Option (List A)
collect entry ns = let (done, out) = push_entries entry ns [] in if done then some out else none

-- How `parse_config` ends, with the configuration.
pub data Parsed (m : Model) : Type 0 where
  returned : Bool → NssfConfig m → Parsed m
  thrown : NssfConfig m → Parsed m

module _ (m : Model) (y : Yaml) where
  open y use {Node, child, child_or_new, children, is_defined, load_file}
  open m use {
    snssai.{init as snssai_init, set_sst, set_sd},
    ext_snssai.{
      Object as ExtSnssai, init as ext_snssai_init, set_sst as set_ext_sst, set_sd as set_ext_sd,
    },
    nsi.{init as nsi_init, set_nrf_id, set_nsi_id, set_nrf_nf_mgt_uri},
    location.{Tai, plmn_id_init, set_mcc, set_mnc, tai_init, set_plmn_id, set_tac},
    AvailabilityData,
    availability_data_init,
    set_tai,
    set_supported_snssai_list,
  }

  -- One round of the loop of `parse_nsi_info`.
  unfoldable pub nsi_entry : Node → Option (NsiInfo m)
  nsi_entry n = do
    info ← child n "nsiInformationList"
    nrf_id ← text_at y info "nrfId"
    nsi_id ← text_if_at y info "nsiId"
    uri ← text_if_at y info "nrfNfMgtUri"
    slice ← child n "snssai"
    sst ← int_at y slice "sst"
    sd ← text_if_at y slice "sd"
    some record {
      snssai = set_if set_sd (set_sst snssai_init sst) sd;
      nsi_info =
          set_if set_nrf_nf_mgt_uri (set_if set_nsi_id (set_nrf_id nsi_init nrf_id) nsi_id) uri;
    }

  unfoldable pub parse_nsi_info : Node → List (NsiInfo m) → Bool × List (NsiInfo m)
  parse_nsi_info conf nsi_info_list = push_entries nsi_entry (children conf) nsi_info_list

  -- One round of the loop of `parse_ta_info`.
  unfoldable pub ta_entry : Node → Option (TaInfo m)
  ta_entry n = do
    tai ← child n "tai"
    plmn ← child tai "plmnId"
    mcc ← text_at y plmn "mcc"
    mnc ← text_at y plmn "mnc"
    tac ← text_at y tai "tac"
    some
        record { tai = set_tac (set_plmn_id tai_init (set_mnc (set_mcc plmn_id_init mcc) mnc)) tac }

  unfoldable pub parse_ta_info : Node → List (TaInfo m) → Bool × List (TaInfo m)
  parse_ta_info conf ta_info_list = push_entries ta_entry (children conf) ta_info_list

  -- The first part of `parse_nssai`, which sets the MCC twice.
  unfoldable pub nssai_tai : Node → Option Tai
  nssai_tai conf = do
    tai ← child conf "tai"
    tac ← text_at y tai "tac"
    plmn ← child tai "plmnId"
    mcc ← text_at y plmn "mcc"
    again ← text_at y plmn "mcc"
    some (set_plmn_id (set_tac tai_init tac) (set_mcc (set_mcc plmn_id_init mcc) again))

  -- One round of its loop.
  unfoldable pub ext_entry : Node → Option ExtSnssai
  ext_entry n = do
    sst ← int_at y n "sst"
    sd ← text_if_at y n "sd"
    some (set_if set_ext_sd (set_ext_sst ext_snssai_init sst) sd)

  unfoldable pub nssai_list : Node → Option (List ExtSnssai)
  nssai_list conf = do
    slices ← child conf "supportedSnssaiList"
    collect ext_entry (children slices)

  unfoldable pub parse_nssai : Node → AvailabilityData → Bool × AvailabilityData
  unfolding nssai_tai ext_entry nssai_list
  parse_nssai conf nssai_data = elim (nssai_tai conf) [
    | none ↦ (false, nssai_data)
    | some tai ↦ elim (nssai_list conf) [
      | none ↦ (false, set_tai nssai_data tai)
      | some slices ↦ (true, set_supported_snssai_list (set_tai nssai_data tai) slices)
    ]
  ]

  -- One round of the loop of `parse_amf_list`; the result of `parse_nssai` is not looked at.
  unfoldable pub amf_list_entry : Node → Option (String × List AvailabilityData)
  unfolding parse_nssai
  amf_list_entry amf = do
    conf ← child amf "supportedNssaiAvailabilityData"
    let (_, nssai_data) = parse_nssai conf availability_data_init
    nf_id ← text_at y amf "nfId"
    some (nf_id, nssai_data ∷ [])

  unfoldable pub parse_amf_list :
      Node → List (String × List AvailabilityData) → Bool × List (String × List AvailabilityData)
  parse_amf_list conf amf_list = push_entries amf_list_entry (children conf) amf_list

  -- One round of the loop of `parse_amf_info`.
  unfoldable pub amf_entry : Node → Option (AmfInfo m)
  unfolding parse_amf_list
  amf_entry n = do
    target_amf_set ← text_at y n "targetAmfSet"
    nrf_amf_set ← text_at y n "nrfAmfSet"
    nrf_amf_set_mgt ← text_at y n "nrfAmfSetNfMgtUri"
    conf ← child n "amfList"
    let (done, amfs) = parse_amf_list conf []
    if done
        then some record {
          target_amf_set = target_amf_set;
          nrf_amf_set = nrf_amf_set;
          nrf_amf_set_mgt = nrf_amf_set_mgt;
          amf_list = amfs;
        }
        else none

  unfoldable pub parse_amf_info : Node → List (AmfInfo m) → Bool × List (AmfInfo m)
  parse_amf_info conf amf_info_list = push_entries amf_entry (children conf) amf_info_list

  -- `config["configuration"][name]`: the section is parsed if it is defined, and an exception of the
  -- look-up is not caught.
  unfoldable pub in_section :
      Node → String → NssfConfig m → (Node → NssfConfig m) → (NssfConfig m → Parsed m) → Parsed m
  in_section doc name cfg parse next =
      elim (do c ← child_or_new doc "configuration"; child_or_new c name) [
        | none ↦ thrown cfg
        | some section ↦ if is_defined section then next (parse section) else returned false cfg
      ]

  unfoldable pub parse_amf_section : Node → NssfConfig m → Parsed m
  unfolding in_section parse_amf_info
  parse_amf_section doc cfg =
      in_section doc "amfInfoList" cfg
        (λ s. record cfg { amf_info_list = (parse_amf_info s cfg.amf_info_list).1 }) (returned true)

  unfoldable pub parse_ta_section : Node → NssfConfig m → Parsed m
  unfolding in_section parse_ta_info parse_amf_section
  parse_ta_section doc cfg =
      in_section doc "taInfoList" cfg
        (λ s. record cfg { ta_info_list = (parse_ta_info s cfg.ta_info_list).1 })
        (parse_amf_section doc)

  unfoldable pub parse_nsi_section : Node → NssfConfig m → Parsed m
  unfolding in_section parse_nsi_info parse_ta_section
  parse_nsi_section doc cfg =
      in_section doc "nsiInfoList" cfg
        (λ s. record cfg { nsi_info_list = (parse_nsi_info s cfg.nsi_info_list).1 })
        (parse_ta_section doc)

  -- The path is that of the configuration, `get_slice_config_path`.
  unfoldable pub parse_config : String → NssfConfig m → Parsed m
  unfolding parse_nsi_section
  parse_config path cfg = elim (load_file path) [
    | bad_file ↦ returned false cfg
    | malformed ↦ thrown cfg
    | loaded doc ↦ parse_nsi_section doc cfg
  ]
