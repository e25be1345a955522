-- ===== src/Program/Slices.antt =====
-- The configuration while the program runs is well-formed, and so only the slice of a request for a PDU
-- session counts.
use oai_cn5g_nssf.Base.{
  ℕ, String, ◌≡◌, sym, subst, Bool, true, false, Option, some, none, ◌⊎◌, inl, inr,
}
use oai_cn5g_nssf.Model.{Model}
use oai_cn5g_nssf.Config.{NssfConfig}
use oai_cn5g_nssf.Config.Yaml.{Yaml}
use oai_cn5g_nssf.Config.Parse.WellFormed.{IsWellFormed, config_of, parse_config-IsWellFormed}
use oai_cn5g_nssf.Config.Start.{
  BaseConfig, NssfConfigType, get_slice_config_path, from_yaml, nssf_added, and_parse, init,
}
use oai_cn5g_nssf.Selection.Handlers.{handle_slice_info_for_pdu_session}
use oai_cn5g_nssf.Selection.Handlers.Sessions.{
  SameSession, handle_slice_info_for_pdu_session-SameSession,
}
use oai_cn5g_nssf.Server.{Sbi}
use oai_cn5g_nssf.Http1.Pistache.{Pistache}
use oai_cn5g_nssf.Http1.Routes.Router.{Router}
use oai_cn5g_nssf.Http1.Routes.Sequence as Http1
use oai_cn5g_nssf.Http2.Server.Session as Http2

module _ (m : Model) (y : Yaml) (base : BaseConfig y) where
  and_parse-IsWellFormed :
      (cfg : NssfConfig m) (read : Option (Bool × NssfConfigType))
      → IsWellFormed m cfg
      → IsWellFormed m (config_of m (and_parse y m base cfg read))
  and_parse-IsWellFormed cfg none w = w
  and_parse-IsWellFormed cfg (some (false, nssf)) w = w
  and_parse-IsWellFormed cfg (some (true, nssf)) w =
      parse_config-IsWellFormed m y (get_slice_config_path nssf) cfg w

  init-IsWellFormed :
      (file : String) (before : NssfConfig m)
      → IsWellFormed m before
      → IsWellFormed m (config_of m (init y m base file before))
  unfolding init
  init-IsWellFormed file before w =
      and_parse-IsWellFormed before (base.init (from_yaml y base) file nssf_added) w

  module _ (sbi : Sbi m) (p : Pistache m) (router : Router) where
    -- The configurations that one of the servers, started with one, can come to.
    abbrev pub ServerReach : NssfConfig m → NssfConfig m → Type 0
    ServerReach cfg now = Http1.Reach m sbi p router cfg now ⊎ Http2.Reach m sbi cfg now

    ServerReach-eq : {cfg now : NssfConfig m} → ServerReach cfg now → now ≡ cfg
    ServerReach-eq (inl reach) = Http1.Reach-eq m sbi p router reach
    ServerReach-eq (inr reach) = Http2.config_unchanged m sbi reach

    -- Whatever the configuration files hold, and however their parsing ends: if the configuration was
    -- well-formed before it is initialised, which means that the entries for slice instances name slices
    -- with an empty SD where none is set and that each AMF has one tracking area, then it is well-formed
    -- after any requests that one of the servers has handled. So two requests for PDU sessions are
    -- handled alike if they have the same roaming indication and name slices with the same key and with
    -- an empty SD where none is set.
    pub sessions_of_slices :
        (file : String) (before now : NssfConfig m) (info info' : m.PduSessionInfo)
        (tai : m.location.Tai) (home : m.location.PlmnId) (code : ℕ) (auth : m.auth.Object)
        → IsWellFormed m before
        → ServerReach (config_of m (init y m base file before)) now
        → SameSession m info info'
        → IsWellFormed m now
          × (handle_slice_info_for_pdu_session m now info tai home code auth
              ≡ handle_slice_info_for_pdu_session m now info' tai home code auth)
    sessions_of_slices file before now info info' tai home code auth w reach same =
        let good =
          subst (IsWellFormed m) (sym (ServerReach-eq reach)) (init-IsWellFormed file before w) in
        (
          good,
          handle_slice_info_for_pdu_session-SameSession m now info info' tai home code auth good.0
              same,
        )
