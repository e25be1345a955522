-- ===== src/Tests/Document.antt =====
-- A small slice configuration as a document, and a request for the slice that it describes.
use oai_cn5g_nssf.Base.{
  pos, ℤ, String, refl, Bool, true, false, Option, none, some, List, [], ◌∷◌, inl, inr, ◌==◌,
  string_equality, if◌then◌else◌,
}
use oai_cn5g_nssf.Config.{NssfConfig}
use oai_cn5g_nssf.Config.Start.{BaseConfig}
use oai_cn5g_nssf.Config.Yaml.{Yaml, loaded, bad_file}
use oai_cn5g_nssf.Config.Parse.Loop.{All₂}
use oai_cn5g_nssf.Config.Parse.Describe.{TaSettings, SliceSettings}
use oai_cn5g_nssf.Config.Parse.Amf.{AmfSetSettings, DescribesAmfSet}
use oai_cn5g_nssf.Config.Parse.Whole.{Settings, DescribesAll}
use oai_cn5g_nssf.Selection.Handlers.PduSession.{Roams}
use oai_cn5g_nssf.Tests.Concrete.{concrete, no_plmn, PduAttributes, TaiAttributes}

mutual
  -- A document; a sequence is a map whose keys play no part.
  pub data Tree : Type 0 where
    undefined : Tree
    scalar : String → Tree
    number : ℤ → Tree
    node : Entries → Tree

  pub data Entries : Type 0 where
    no_entries : Entries
    entry : String → Tree → Entries → Entries

abbrev pub lookup : Entries → String → Tree
lookup no_entries key = undefined
lookup (entry k t es) key = if k == key then t else lookup es key

abbrev pub values : Entries → List Tree
values no_entries = []
values (entry k t es) = t ∷ values es

abbrev pub child_of : Tree → String → Option Tree
child_of (node es) key = some (lookup es key)
child_of undefined key = none
child_of (scalar s) key = none
child_of (number n) key = none

abbrev pub child_or_new_of : Tree → String → Option Tree
child_or_new_of (node es) key = some (lookup es key)
child_or_new_of undefined key = some undefined
child_or_new_of (scalar s) key = none
child_or_new_of (number n) key = none

abbrev pub children_of : Tree → List Tree
children_of (node es) = values es
children_of undefined = []
children_of (scalar s) = []
children_of (number n) = []

abbrev pub defined : Tree → Bool
defined undefined = false
defined (scalar s) = true
defined (number n) = true
defined (node es) = true

abbrev pub to_string : Tree → Option String
to_string (scalar s) = some s
to_string undefined = none
to_string (number n) = none
to_string (node es) = none

abbrev pub to_int32 : Tree → Option ℤ
to_int32 (number n) = some n
to_int32 undefined = none
to_int32 (scalar s) = none
to_int32 (node es) = none

abbrev pub slice_node : Tree
slice_node = node (entry "sst" (number (pos 222)) (entry "sd" (scalar "123") no_entries))

abbrev pub info_node : Tree
info_node = node (entry "nrfId" (scalar "nrf-1") (entry "nsiId" (scalar "10") no_entries))

abbrev pub nsi_section : Tree
nsi_section = node (
    entry "1" (node (entry "nsiInformationList" info_node (entry "snssai" slice_node no_entries)))
      no_entries)

abbrev pub tai_node : Tree
tai_node = node (
    entry "plmnId" (node (entry "mcc" (scalar "208") (entry "mnc" (scalar "95") no_entries)))
      (entry "tac" (scalar "33456") no_entries))

abbrev pub ta_section : Tree
ta_section = node (entry "1" (node (entry "tai" tai_node no_entries)) no_entries)

abbrev pub nssai_node : Tree
nssai_node = node (
    entry "tai" tai_node
      (entry "supportedSnssaiList" (node (entry "1" slice_node no_entries)) no_entries))

abbrev pub amf_node : Tree
amf_node =
    node
      (entry "nfId" (scalar "amf-1") (entry "supportedNssaiAvailabilityData" nssai_node no_entries))

abbrev pub amf_section : Tree
amf_section = node (
    entry "1"
      (node (
        entry "targetAmfSet" (scalar "set-1") (
          entry "nrfAmfSet" (scalar "nrf-a") (
            entry "nrfAmfSetNfMgtUri" (scalar "mgt-a")
              (entry "amfList" (node (entry "1" amf_node no_entries)) no_entries)))))
      no_entries)

abbrev pub document : Tree
document = node (
    entry "configuration"
      (node (
        entry "nsiInfoList" nsi_section
          (entry "taInfoList" ta_section (entry "amfInfoList" amf_section no_entries))))
      no_entries)

abbrev pub tree_yaml : Yaml
tree_yaml = record {
  Node = Tree;
  child = child_of;
  child_or_new = child_or_new_of;
  children = children_of;
  is_defined = defined;
  as_string = to_string;
  as_int32 = to_int32;
  load_file = λ path. if path == "nssf_slice_config.yaml" then loaded document else bad_file;
}

abbrev pub slice : SliceSettings
slice = record { sst = pos 222; sd = some "123" }

abbrev pub ta : TaSettings
ta = record { mcc = "208"; mnc = "95"; tac = "33456" }

abbrev pub amf_set : AmfSetSettings
amf_set = record {
  target_amf_set = "set-1";
  nrf_amf_set = "nrf-a";
  nrf_amf_set_mgt = "mgt-a";
  amfs = record { nf_id = "amf-1"; ta = ta; slices = slice ∷ [] } ∷ [];
}

abbrev pub amf_sets : List AmfSetSettings
amf_sets = amf_set ∷ []

abbrev pub settings : Settings
settings = record {
  nsi_settings =
      record { slice = slice; nrf_id = "nrf-1"; nsi_id = some "10"; nrf_nf_mgt_uri = none } ∷ [];
  ta_settings = ta ∷ [];
  amf_set_settings = amf_sets;
}

abbrev pub empty : NssfConfig concrete
empty = record { nsi_info_list = []; ta_info_list = []; amf_info_list = [] }

abbrev pub conf : Tree
conf = node (
    entry "nsiInfoList" nsi_section
      (entry "taInfoList" ta_section (entry "amfInfoList" amf_section no_entries)))

pub amf_sets_described :
    All₂ (DescribesAmfSet concrete tree_yaml) (children_of amf_section) amf_sets
amf_sets_described = (
  (
    (scalar "set-1", refl, refl),
    (scalar "nrf-a", refl, refl),
    (scalar "mgt-a", refl, refl),
    (
      node (entry "1" amf_node no_entries),
      refl,
      (
        (
          (
            nssai_node,
            refl,
            (
              (
                tai_node,
                refl,
                (
                  (
                    node (entry "mcc" (scalar "208") (entry "mnc" (scalar "95") no_entries)),
                    refl,
                    ((scalar "208", refl, refl), (scalar "95", refl, refl)),
                  ),
                  (scalar "33456", refl, refl),
                ),
              ),
              (
                node (entry "1" slice_node no_entries),
                refl,
                (((number (pos 222), refl, refl), (scalar "123", refl, (refl, refl))), tt),
              ),
            ),
          ),
          (scalar "amf-1", refl, refl),
        ),
        tt,
      ),
    ),
  ),
  tt,
)

pub all_described : DescribesAll concrete tree_yaml "nssf_slice_config.yaml" settings
all_described = (
  document,
  refl,
  (
    conf,
    nsi_section,
    refl,
    refl,
    refl,
    (
      (
        (
          info_node,
          refl,
          (
            (scalar "nrf-1", refl, refl),
            (scalar "10", refl, (refl, refl)),
            (undefined, refl, refl),
          ),
        ),
        (slice_node, refl, ((number (pos 222), refl, refl), (scalar "123", refl, (refl, refl)))),
      ),
      tt,
    ),
  ),
  (
    conf,
    ta_section,
    refl,
    refl,
    refl,
    (
      (
        tai_node,
        refl,
        (
          (
            node (entry "mcc" (scalar "208") (entry "mnc" (scalar "95") no_entries)),
            refl,
            ((scalar "208", refl, refl), (scalar "95", refl, refl)),
          ),
          (scalar "33456", refl, refl),
        ),
      ),
      tt,
    ),
  ),
  (conf, amf_section, refl, refl, refl, amf_sets_described),
)

abbrev pub session : PduAttributes
session = record {
  roaming_indication = 1;
  snssai = record { sst = pos 222; sd = "123"; sd_is_set = true };
}

abbrev pub here : TaiAttributes
here = record { plmn_id = record { mcc = "208"; mnc = "95" }; tac = "33456" }

pub stays : ¬ Roams concrete session no_plmn
stays (inl h) = h refl
stays (inr h) = h refl

-- The configuration file names the file of the document.
abbrev pub nssf_node : Tree
nssf_node = node (entry "slice_config_path" (scalar "nssf_slice_config.yaml") no_entries)

abbrev pub tree_base : BaseConfig tree_yaml
tree_base = record {
  nf_from_yaml = λ node. some tt;
  init = λ from path nssf. given (from nssf_node nssf);
}
  where
    given : {S : Type 0} → Option S → Option (Bool × S)
    given none = none
    given (some s) = some (true, s)
