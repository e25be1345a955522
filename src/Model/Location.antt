-- ===== src/Model/Location.antt =====
-- `PlmnId` and `Tai` of the generated 3GPP model.
use oai_cn5g_nssf.Base.{String, ◌≡◌}

-- What the getters of a PLMN identity return.
pub record PlmnIdAttributes : Type 0 where
  pub mcc : String
  pub mnc : String

pub record LocationClasses : Type 1 where
  pub PlmnId : Type 0
  pub get_plmn : PlmnId → PlmnIdAttributes
  pub plmn_id_init : PlmnId
  pub set_mcc : PlmnId → String → PlmnId
  pub set_mnc : PlmnId → String → PlmnId
  pub get-plmn_id_init : get_plmn plmn_id_init ≡ record { mcc = ""; mnc = "" }
  pub get-set_mcc :
      (p : PlmnId) (v : String) → get_plmn (set_mcc p v) ≡ record (get_plmn p) { mcc = v }
  pub get-set_mnc :
      (p : PlmnId) (v : String) → get_plmn (set_mnc p v) ≡ record (get_plmn p) { mnc = v }
  pub Tai : Type 0
  pub get_plmn_id : Tai → PlmnId
  pub get_tac : Tai → String
  pub tai_init : Tai
  pub set_plmn_id : Tai → PlmnId → Tai
  pub set_tac : Tai → String → Tai
  pub get-set_plmn_id : (t : Tai) (p : PlmnId) → get_plmn_id (set_plmn_id t p) ≡ p
  pub get_tac-set_plmn_id : (t : Tai) (p : PlmnId) → get_tac (set_plmn_id t p) ≡ get_tac t
  pub get-set_tac : (t : Tai) (v : String) → get_tac (set_tac t v) ≡ v
  pub get_plmn_id-set_tac : (t : Tai) (v : String) → get_plmn_id (set_tac t v) ≡ get_plmn_id t
