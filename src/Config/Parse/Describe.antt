-- ===== src/Config/Parse/Describe.antt =====
-- What a slice configuration says: relations between YAML nodes and the settings that they describe.
use oai_cn5g_nssf.Base.{String, ℤ, ◌≡◌, Bool, true, false, Option, none, some}
use oai_cn5g_nssf.Model.{SnssaiAttributes, SnssaiClass}
use oai_cn5g_nssf.Config.Yaml.{Yaml, set_if, text_at, int_at, text_if_at}

abbrev pub text_or_empty : Option String → String
text_or_empty none = ""
text_or_empty (some t) = t

abbrev pub is_given : Option String → Bool
is_given none = false
is_given (some t) = true

pub record SliceSettings : Type 0 where
  pub sst : ℤ
  pub sd : Option String

pub record NsiSettings : Type 0 where
  pub slice : SliceSettings
  pub nrf_id : String
  pub nsi_id : Option String
  pub nrf_nf_mgt_uri : Option String

pub record TaSettings : Type 0 where
  pub mcc : String
  pub mnc : String
  pub tac : String

-- The attributes of an S-NSSAI with these settings.
abbrev pub slice_attributes : SliceSettings → SnssaiAttributes
slice_attributes s = record { sst = s.sst; sd = text_or_empty s.sd; sd_is_set = is_given s.sd }

module _ (y : Yaml) where
  open y use {Node, child, children, is_defined, as_string, as_int32}

  -- A node has a child under the key, with the property.
  abbrev pub At : Node → String → (Node → Type 0) → Type 0
  At n key P = (c : Node) × (child n key ≡ some c) × P c

  abbrev pub HasText : Node → String → String → Type 0
  HasText n key text = At n key (λ c. as_string c ≡ some text)

  abbrev pub HasInt : Node → String → ℤ → Type 0
  HasInt n key value = At n key (λ c. as_int32 c ≡ some value)

  abbrev pub MayHaveText : Node → String → Option String → Type 0
  MayHaveText n key none = At n key (λ c. is_defined c ≡ false)
  MayHaveText n key (some text) = At n key (λ c. (is_defined c ≡ true) × (as_string c ≡ some text))

  abbrev pub DescribesSlice : Node → SliceSettings → Type 0
  DescribesSlice n s = HasInt n "sst" s.sst × MayHaveText n "sd" s.sd

  abbrev pub DescribesNsi : Node → NsiSettings → Type 0
  DescribesNsi n s =
      At n "nsiInformationList" (λ info.
        HasText info "nrfId" s.nrf_id
        × MayHaveText info "nsiId" s.nsi_id
        × MayHaveText info "nrfNfMgtUri" s.nrf_nf_mgt_uri)
      × At n "snssai" (λ slice. DescribesSlice slice s.slice)

  abbrev pub DescribesTa : Node → TaSettings → Type 0
  DescribesTa n s = At n "tai" (λ tai.
      At tai "plmnId" (λ plmn. HasText plmn "mcc" s.mcc × HasText plmn "mnc" s.mnc)
      × HasText tai "tac" s.tac)

  pub text_at-HasText :
      (n : Node) (key text : String) → HasText n key text → text_at y n key ≡ some text
  text_at-HasText n key text (c, e, f) = rw (e, f)

  pub int_at-HasInt : (n : Node) (key : String) (v : ℤ) → HasInt n key v → int_at y n key ≡ some v
  int_at-HasInt n key v (c, e, f) = rw (e, f)

  pub text_if_at-MayHaveText :
      (n : Node) (key : String) (text : Option String)
      → MayHaveText n key text
      → text_if_at y n key ≡ some text
  text_if_at-MayHaveText n key none (c, e, f) = rw (e, f)
  text_if_at-MayHaveText n key (some t) (c, e, (f, g)) = rw (e, f, g)

-- A new S-NSSAI with the settings has their attributes.
pub get-set_settings :
    (c : SnssaiClass) (s : SliceSettings)
    → c.get (set_if c.set_sd (c.set_sst c.init s.sst) s.sd) ≡ slice_attributes s
get-set_settings c s = by_sd s.sst s.sd
  where
    by_sd :
        (n : ℤ) (sd : Option String)
        → c.get (set_if c.set_sd (c.set_sst c.init n) sd)
          ≡ record { sst = n; sd = text_or_empty sd; sd_is_set = is_given sd }
    by_sd n none = rw (c.get-set_sst, c.init_unset, c.init_sd)
    by_sd n (some d) = rw (c.get-set_sd, c.get-set_sst)
