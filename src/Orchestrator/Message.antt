-- ===== src/Orchestrator/Message.antt =====
-- Requests, responses and intents: the types of khazar/sdk/include/common.h that the orchestrator
-- uses, and khazar/components/orchestrator/protocol/protocol.c. A buffer is the text it holds.
use khazar_os.Common.{
  ℕ, zero, suc, ◌||◌, Option, none, some, [], ◌∷◌, ◌++◌, ◌==◌, if◌then◌else◌, drop, ◌>>=◌,
}
use khazar_os.CString.{Bytes, lit, strstr, is_some, contains, strchr}
use khazar_os.CString.Lines.{strtoull, decimal}

pub data Status : Type 0 where
  success error : Status

pub data ErrorCode : Type 0 where
  err_none agent_timeout agent_disconnected policy_denied internal invalid_request : ErrorCode
  agent_unavailable system not_registered registration_failed connection_failed : ErrorCode
  protocol_error timeout : ErrorCode

unfoldable pub error_code_str : ErrorCode → Bytes
error_code_str err_none = lit "NONE"
error_code_str agent_timeout = lit "AGENT_TIMEOUT"
error_code_str agent_disconnected = lit "AGENT_DISCONNECTED"
error_code_str policy_denied = lit "POLICY_DENIED"
error_code_str internal = lit "INTERNAL_ERROR"
error_code_str invalid_request = lit "INVALID_REQUEST"
error_code_str agent_unavailable = lit "AGENT_UNAVAILABLE"
error_code_str system = lit "SYSTEM_ERROR"
error_code_str not_registered = lit "NOT_REGISTERED"
error_code_str registration_failed = lit "REGISTRATION_FAILED"
error_code_str connection_failed = lit "CONNECTION_FAILED"
error_code_str protocol_error = lit "PROTOCOL_ERROR"
error_code_str timeout = lit "TIMEOUT"

-- The fields of `request_t` that are read.
pub record Request : Type 0 where
  pub id : ℕ
  pub query : Bytes

pub record Response : Type 0 where
  pub id : ℕ
  pub status : Status
  pub payload : Bytes
  pub error_code : ErrorCode

-- The fields of `intent_t` that are read.
pub record Intent : Type 0 where
  pub action : Bytes
  pub target : Bytes
  pub required_capability : Bytes

pub data MessageType : Type 0 where
  unknown request response ping register : MessageType

-- The copy loop for the query: a backslash before another byte is dropped.
unfoldable pub copy_query : ℕ → Bytes → Bytes
copy_query zero s = []
copy_query (suc n) [] = []
copy_query (suc n) (c ∷ []) = if c == b'"' then [] else c ∷ []
copy_query (suc n) (c ∷ d ∷ s) =
    let skipped = copy_query n s in
    let plain = copy_query n (d ∷ s) in
    if c == b'"' then [] else if c == b'\\' then d ∷ skipped else c ∷ plain

unfoldable pub parse_query : Bytes → Bytes
unfolding strstr strchr copy_query
parse_query raw = elim (do p ← strstr raw (lit "\"query\""); q ← strchr p b':'; strchr q b'"') [
  | none ↦ []
  | some v ↦ copy_query 65535 (drop 1 v)
]

unfoldable pub parse_id : Bytes → ℕ
unfolding strstr strchr strtoull
parse_id raw = elim (do p ← strstr raw (lit "\"id\""); strchr p b':') [
  | none ↦ 0
  | some q ↦ strtoull (drop 1 q)
]

abbrev pub no_request : Request
no_request = record { id = 0; query = [] }

-- `none` where the call returns -1. The caller's request is zeroed, and stays so for a ping and for a
-- registration.
unfoldable pub protocol_parse : Bytes → Option (MessageType × Request)
unfolding strstr is_some parse_query parse_id
protocol_parse raw =
    if contains raw (lit "\"type\":\"ping\"")
    then some (ping, no_request)
    else if contains raw (lit "\"type\":\"request\"") || contains raw (lit "\"query\"")
    then some (request, record { id = parse_id raw; query = parse_query raw })
    else if contains raw (lit "\"type\":\"register\"")
    then some (register, no_request)
    else none

unfoldable pub status_str : Status → Bytes
status_str success = lit "success"
status_str error = lit "error"

unfoldable pub protocol_build_response : Response → Bytes
unfolding decimal status_str
protocol_build_response resp =
    lit "{\"id\":"
    ++ (decimal resp.id
        ++ (lit ",\"status\":\""
            ++ (status_str resp.status
                ++ (lit "\",\"payload\":{\"message\":\"" ++ (resp.payload ++ lit "\"}}")))))
