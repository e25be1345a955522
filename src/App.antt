-- ===== src/App.antt =====
-- The application: src/nssf_app/nssf_app.cpp, which passes each request to slice selection or to
-- availability and describes a refusal.
pub mod Problems
use oai_cn5g_nssf.Base.{ℕ, String, Bool, true, false, ◌==◌, nat_equality, if◌then◌else◌}
use oai_cn5g_nssf.Model.{Model}
use oai_cn5g_nssf.Config.{NssfConfig}
use oai_cn5g_nssf.Selection.Handlers as Selection
use oai_cn5g_nssf.Selection.Handlers.{Selected}
use oai_cn5g_nssf.Availability
use oai_cn5g_nssf.Availability.{Created}

-- The reference parameters of a selection handler on its return.
pub record SelectionAnswer (m : Model) : Type 0 where
  pub http_code : ℕ
  pub problem_details : m.problem.Object
  pub auth_slice_info : m.auth.Object

pub record AvailabilityAnswer (m : Model) : Type 0 where
  pub http_code : ℕ
  pub problem_details : m.problem.Object
  pub nssf_cfg : NssfConfig m

module _ (m : Model) where
  open m use {location.{PlmnId, Tai}, RegistrationInfo, PduSessionInfo, AvailabilityInfo}

  -- The problem details of a refusal with 403.
  refusal : String → m.problem.Object → m.problem.Object
  refusal detail p =
      m.problem.set_cause
        (m.problem.set_detail
          (m.problem.set_status (m.problem.set_title p "UNSUPPORTED_RESOURCE") m.status.forbidden)
          detail)
        "SNSSAI_NOT_SUPPORTED"

  -- Both selection handlers end so.
  answer : Selected m → m.problem.Object → SelectionAnswer m
  unfolding refusal
  answer out problem = record {
    http_code = out.http_code;
    problem_details =
        if out.authorised
        then problem
        else if out.http_code == m.status.forbidden
        then refusal "S-NSSAI in Requested NSSAI is not supported in PLMN" problem
        else problem;
    auth_slice_info = out.auth_slice_info;
  }

  unfoldable pub handle_slice_info_for_registration :
      NssfConfig m
      → RegistrationInfo
      → Tai
      → PlmnId
      → ℕ
      → m.problem.Object
      → m.auth.Object
      → SelectionAnswer m
  unfolding answer
  handle_slice_info_for_registration cfg slice_info tai home_plmnid http_code problem auth =
      answer
        (Selection.handle_slice_info_for_registration m cfg slice_info tai home_plmnid http_code
          auth)
        problem

  unfoldable pub handle_slice_info_for_pdu_session :
      NssfConfig m
      → PduSessionInfo
      → Tai
      → PlmnId
      → ℕ
      → m.problem.Object
      → m.auth.Object
      → SelectionAnswer m
  unfolding answer
  handle_slice_info_for_pdu_session cfg slice_info tai home_plmnid http_code problem auth =
      answer
        (Selection.handle_slice_info_for_pdu_session m cfg slice_info tai home_plmnid http_code
          auth)
        problem

  -- It is still to be written.
  unfoldable pub handle_slice_info_for_ue_cu :
      {SliceInfoForUeCu : Type 0}
      → SliceInfoForUeCu
      → Tai
      → PlmnId
      → ℕ
      → m.problem.Object
      → ℕ × m.problem.Object
  handle_slice_info_for_ue_cu slice_info tai home_plmnid http_code problem = (http_code, problem)

  unfoldable pub handle_create_nssai_availability :
      NssfConfig m → String → AvailabilityInfo → ℕ → m.problem.Object → AvailabilityAnswer m
  unfolding refusal
  handle_create_nssai_availability cfg nf_id info http_code problem =
      let out = Availability.handle_create_nssai_availability m cfg nf_id info http_code in
      record {
        http_code = out.http_code;
        problem_details =
            if out.created
            then problem
            else if out.http_code == m.status.forbidden
            then refusal "NSSAI Availability" problem
            else problem;
        nssf_cfg = out.nssf_cfg;
      }
