-- ===== src/Model/Slice.antt =====
-- The S-NSSAI classes of the generated 3GPP model (`Snssai.h`, `ExtSnssai.h` and others of the
-- submodule common-src), as far as the program uses them.
use oai_cn5g_nssf.Base.{ℤ, String, ◌≡◌, Bool, true, false, List, if◌then◌else◌}

-- What the getters of an S-NSSAI return.
pub record SnssaiAttributes : Type 0 where
  pub sst : ℤ
  pub sd : String
  pub sd_is_set : Bool

-- `Snssai` and `ExtSnssai`: `getSst`, `getSd` and `sdIsSet` are the fields of `get`. A setter changes
-- its own attribute, and a new object has no SD.
pub record SnssaiClass : Type 1 where
  pub Object : Type 0
  pub get : Object → SnssaiAttributes
  pub init : Object
  pub set_sst : Object → ℤ → Object
  pub set_sd : Object → String → Object
  pub init_unset : (get init).sd_is_set ≡ false
  pub init_sd : (get init).sd ≡ ""
  pub get-set_sst : (s : Object) (n : ℤ) → get (set_sst s n) ≡ record (get s) { sst = n }
  pub get-set_sd :
      (s : Object) (d : String) → get (set_sd s d) ≡ record (get s) { sd = d; sd_is_set = true }

-- A new object that is given an SST, and an SD if there is one.
pub get-fresh :
    (c : SnssaiClass) (n : ℤ) (is_set : Bool) (d : String)
    → c.get (if is_set then c.set_sd (c.set_sst c.init n) d else c.set_sst c.init n)
      ≡ record { sst = n; sd = if is_set then d else ""; sd_is_set = is_set }
get-fresh c n true d = rw (c.get-set_sd, c.get-set_sst)
get-fresh c n false d = rw (c.get-set_sst, c.init_unset, c.init_sd)

-- `SubscribedSnssai`, `AllowedSnssai`, `AccessType` and `AllowedNssai`.
pub record NssaiClasses (Snssai : Type 0) : Type 1 where
  pub SubscribedSnssai : Type 0
  pub get_subscribed_snssai : SubscribedSnssai → Snssai
  pub AllowedSnssai : Type 0
  pub allowed_snssai_init : AllowedSnssai
  pub set_allowed_snssai : AllowedSnssai → Snssai → AllowedSnssai
  pub get_allowed_snssai : AllowedSnssai → Snssai
  pub get-set_allowed_snssai :
      (a : AllowedSnssai) (s : Snssai) → get_allowed_snssai (set_allowed_snssai a s) ≡ s
  pub AccessType : Type 0
  pub access_type_init : AccessType
  -- `setValue(AccessType::eAccessType::_3GPP_ACCESS)`
  pub set_3gpp_access : AccessType → AccessType
  pub AllowedNssai : Type 0
  pub allowed_nssai_init : AllowedNssai
  pub set_access_type : AllowedNssai → AccessType → AllowedNssai
  pub get_access_type : AllowedNssai → AccessType
  pub set_allowed_snssai_list : AllowedNssai → List AllowedSnssai → AllowedNssai
  pub get_allowed_snssai_list : AllowedNssai → List AllowedSnssai
  pub get-set_access_type :
      (n : AllowedNssai) (t : AccessType) → get_access_type (set_access_type n t) ≡ t
  pub get_access_type-set_allowed_snssai_list :
      (n : AllowedNssai) (l : List AllowedSnssai)
      → get_access_type (set_allowed_snssai_list n l) ≡ get_access_type n
  pub get-set_allowed_snssai_list :
      (n : AllowedNssai) (l : List AllowedSnssai)
      → get_allowed_snssai_list (set_allowed_snssai_list n l) ≡ l
