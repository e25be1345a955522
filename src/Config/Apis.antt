-- ===== src/Config/Apis.antt =====
-- The list of APIs, `nssf_config::get_api_list` of src/nssf_app/nssf_config.cpp.
use oai_cn5g_nssf.Base.{String, Bool, true, List, [], ◌∷◌}

-- The values of the JSON object, under the keys of the same words; a path is given by its parts, which
-- are appended.
pub record ApiList : Type 0 where
  pub organisation : String
  pub description : String
  pub version : String
  pub api : String
  pub method : String
  pub uri_path : List String
  pub details : String

-- The base and the path of the service are names of `sbi_helper`.
unfoldable pub list_apis : String → String → Bool × ApiList
list_apis base path = (
  true,
  record {
    organisation = "Openairinterface Software Aliance";
    description = "OAI-NSSF initial Release";
    version = "1.0.0";
    api = "Network Slice Information (Document)";
    method = "GET";
    uri_path = base ∷ "<api_version>" ∷ path ∷ [];
    details = "Retrieve the Network Slice Selection Information (PDU Session)";
  },
)
