-- ===== src/Model.antt =====
-- The program's view of the code that is not in this repository but in its submodule common-src: the
-- generated classes of the 3GPP data model and a few constants. A `Model` is a parameter of all other
-- modules. The children hold the classes.
mod Slice
mod Location
mod Answer
pub use Slice.*
pub use Location.*
pub use Answer.*
use oai_cn5g_nssf.Base.{ℕ, ℤ, String, ◌≡◌, Bool, List}

pub record Model : Type 1 where
  pub snssai : SnssaiClass
  pub ext_snssai : SnssaiClass
  -- `SST_MAX_STANDARDIZED_VALUE` of `3gpp_23.003.h`
  pub sst_max_standardized_value : ℤ
  pub nssai : NssaiClasses snssai.Object
  pub location : LocationClasses
  pub nsi : NsiClass
  pub auth : AuthClass snssai.Object nssai.AllowedNssai nsi.Object
  pub problem : ProblemClass
  pub status : StatusCodes
  -- `SliceInfoForRegistration`
  pub RegistrationInfo : Type 0
  pub registration_init : RegistrationInfo
  pub request_mapping_is_set : RegistrationInfo → Bool
  pub mapping_of_nssai_is_set : RegistrationInfo → Bool
  pub requested_nssai_is_set : RegistrationInfo → Bool
  pub get_requested_nssai : RegistrationInfo → List snssai.Object
  pub subscribed_nssai_is_set : RegistrationInfo → Bool
  pub get_subscribed_nssai : RegistrationInfo → List nssai.SubscribedSnssai
  -- `SliceInfoForPDUSession`; the indication as the integer that `int(roam_ind_enum)` gives
  pub PduSessionInfo : Type 0
  pub pdu_session_init : PduSessionInfo
  pub roaming_indication : PduSessionInfo → ℕ
  pub get_snssai : PduSessionInfo → snssai.Object
  -- `SupportedNssaiAvailabilityData`
  pub AvailabilityData : Type 0
  pub availability_data_init : AvailabilityData
  pub set_tai : AvailabilityData → location.Tai → AvailabilityData
  pub get_tai : AvailabilityData → location.Tai
  pub set_supported_snssai_list : AvailabilityData → List ext_snssai.Object → AvailabilityData
  pub get_supported_snssai_list : AvailabilityData → List ext_snssai.Object
  pub get-set_tai : (d : AvailabilityData) (t : location.Tai) → get_tai (set_tai d t) ≡ t
  pub get_tai-set_supported_snssai_list :
      (d : AvailabilityData) (l : List ext_snssai.Object)
      → get_tai (set_supported_snssai_list d l) ≡ get_tai d
  pub get-set_supported_snssai_list :
      (d : AvailabilityData) (l : List ext_snssai.Object)
      → get_supported_snssai_list (set_supported_snssai_list d l) ≡ l
  -- `NssaiAvailabilityInfo` and `AuthorizedNssaiAvailabilityInfo`
  pub AvailabilityInfo : Type 0
  pub amf_set_id_is_set : AvailabilityInfo → Bool
  pub get_amf_set_id : AvailabilityInfo → String
  pub get_supported_nssai_availability_data : AvailabilityInfo → List AvailabilityData
  pub AuthAvailabilityInfo : Type 0
  pub auth_availability_init : AuthAvailabilityInfo
