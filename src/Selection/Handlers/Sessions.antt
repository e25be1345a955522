-- ===== src/Selection/Handlers/Sessions.antt =====
-- Requests for PDU sessions of the same slice are handled alike.
use oai_cn5g_nssf.Base.{ℕ, ◌≡◌, refl, All}
use oai_cn5g_nssf.Model.{Model}
use oai_cn5g_nssf.Config.{NssfConfig}
use oai_cn5g_nssf.Config.Parse.WellFormed.{NamesPlain}
use oai_cn5g_nssf.Selection.Compare.Key.{SameSlice}
use oai_cn5g_nssf.Selection.Lookup.Keys.{validate_nsi-SameSlice}
use oai_cn5g_nssf.Selection.Handlers.{select_nsi, handle_slice_info_for_pdu_session}

module _ (m : Model) where
  open m use {location.{PlmnId, Tai}, PduSessionInfo, roaming_indication, get_snssai}

  -- Two requests with the same roaming indication, for the same slice.
  pub record SameSession (info info' : PduSessionInfo) : Type 0 where
    pub roaming : roaming_indication info ≡ roaming_indication info'
    pub slice : SameSlice m (get_snssai info) (get_snssai info')

  pub handle_slice_info_for_pdu_session-SameSession :
      (cfg : NssfConfig m) (info info' : PduSessionInfo) (tai : Tai) (home : PlmnId) (code : ℕ)
      (auth : m.auth.Object)
      → All (NamesPlain m) cfg.nsi_info_list
      → SameSession info info'
      → handle_slice_info_for_pdu_session m cfg info tai home code auth
        ≡ handle_slice_info_for_pdu_session m cfg info' tai home code auth
  unfolding handle_slice_info_for_pdu_session select_nsi
  handle_slice_info_for_pdu_session-SameSession cfg info info' tai home code auth plain same =
      rw (same.roaming, validate_nsi-SameSlice m cfg info info' m.nsi.init same.slice plain) refl
