-- ===== src/Orchestrator/Agent.antt =====
-- `agent_info_t` of khazar/sdk/include/common.h: `capabilities[0 .. cap_count)` is a list.
use khazar_os.Common.{ℕ, Bool, List}
use khazar_os.CString.{Bytes}

pub record AgentInfo : Type 0 where
  pub name : Bytes
  pub version : Bytes
  pub socket_path : Bytes
  pub capabilities : List Bytes
  pub alive : Bool
  pub last_heartbeat : ℕ
