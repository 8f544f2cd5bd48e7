-- ===== src/Sdk/Protocol.antt =====
-- The messages between an agent and the orchestrator: khazar/sdk/protocol/protocol.c. The requests and
-- responses are those of khazar/sdk/include/common.h, of which the header of the orchestrator is a copy.
-- `protocol_parse_intent` reads a floating-point number and is left out.
use khazar_os.Common.{
  ℕ, ◌-◌, ◌%◌, ◌^◌, Bool, true, false, ◌||◌, Option, none, some, List, [], ◌∷◌, ◌++◌, if◌then◌else◌,
  length, take, ℤ, pos, negsuc,
}
use khazar_os.CString.{Bytes, lit, strstr, is_some, contains}
use khazar_os.CString.Lines.{decimal}
use khazar_os.Orchestrator.Agent.{AgentInfo}
use khazar_os.Orchestrator.Message.{
  Status, error, ErrorCode, err_none, error_code_str, Request, Response, status_str,
}
use khazar_os.Sdk.Json.{json_extract_string, json_extract_int, json_extract_string_array}

pub data MessageType : Type 0 where
  msg_unknown msg_request msg_response msg_ping msg_pong msg_register : MessageType
  msg_unregister msg_heartbeat msg_event msg_error : MessageType

-- `none` where the call returns -1.
unfoldable pub protocol_parse_type : Bytes → Option MessageType
unfolding strstr is_some
protocol_parse_type raw =
    if contains raw (lit "\"type\":\"ping\"")
    then some msg_ping
    else if contains raw (lit "\"type\":\"pong\"")
    then some msg_pong
    else if contains raw (lit "\"type\":\"heartbeat\"")
    then some msg_heartbeat
    else if contains raw (lit "\"type\":\"event\"")
    then some msg_event
    else if contains raw (lit "\"type\":\"register\"")
    then some msg_register
    else if contains raw (lit "\"type\":\"unregister\"")
    then some msg_unregister
    else if contains raw (lit "\"type\":\"response\"")
    then some msg_response
    else if contains raw (lit "\"type\":\"request\"") || contains raw (lit "\"query\"")
    then some msg_request
    else none

-- (uint64_t)id_val
unfoldable pub unsigned_64 : ℤ → ℕ
unsigned_64 (pos n) = n % 2 ^ 64
unsigned_64 (negsuc n) = 2 ^ 64 - 1 - n % 2 ^ 64

-- The text of a member that is not there is empty: the structure was zeroed.
unfoldable pub string_or_empty : Bytes → Bytes → ℕ → Bytes
unfolding json_extract_string
string_or_empty raw key n = elim (json_extract_string raw key n) [ none ↦ [] | some s ↦ s ]

unfoldable pub protocol_parse_request : Bytes → Request
unfolding string_or_empty json_extract_int unsigned_64
protocol_parse_request raw = record {
  id = elim (json_extract_int raw (lit "id")) [ none ↦ 0 | some n ↦ unsigned_64 n ];
  query = string_or_empty raw (lit "query") 65536;
}

-- What the zeroed structure holds of an agent afterwards.
unfoldable pub protocol_parse_register : Bytes → AgentInfo
unfolding string_or_empty json_extract_string_array
protocol_parse_register raw = record {
  name = string_or_empty raw (lit "name") 64;
  version = string_or_empty raw (lit "version") 16;
  socket_path = [];
  capabilities = elim (json_extract_string_array raw (lit "capabilities") 32) [
    | none ↦ []
    | some caps ↦ caps
  ];
  alive = false;
  last_heartbeat = 0;
}

-- What snprintf(out, out_len, ...) leaves in `out`, for `out_len` above 0.
abbrev pub snprintf : ℕ → Bytes → Bytes
snprintf out_len s = take (out_len - 1) s

abbrev pub message_member : Bytes → Bytes
message_member payload = lit ",\"payload\":{\"message\":\"" ++ (payload ++ lit "\"}}")

abbrev pub id_and_status : ℕ → Status → Bytes
id_and_status id status =
    lit "{\"id\":" ++ (decimal id ++ (lit ",\"status\":\"" ++ (status_str status ++ lit "\"")))

abbrev pub error_member : ErrorCode → Bytes
error_member code = lit ",\"error_code\":\"" ++ (error_code_str code ++ lit "\"")

unfoldable pub protocol_build_response : Response → ℕ → Bytes
unfolding decimal status_str error_code_str
protocol_build_response resp out_len = elim resp.error_code [
  | err_none ↦ snprintf out_len (id_and_status resp.id resp.status ++ message_member resp.payload)
  | code ↦
      snprintf out_len
        (id_and_status resp.id resp.status ++ (error_member code ++ message_member resp.payload))
]

unfoldable pub protocol_build_ping : ℕ → Bytes
protocol_build_ping out_len = snprintf out_len (lit "{\"type\":\"ping\"}")

-- The loop over the capabilities, with what `caps_buf` holds: `strncat` keeps to its 2048 bytes.
unfoldable pub append_capabilities : Bytes → Bool → List Bytes → Bytes
append_capabilities caps_buf first [] = caps_buf
append_capabilities caps_buf first (c ∷ cs) =
    let comma : Bytes = if first then [] else b',' ∷ [] in
    let entry = snprintf 72 (comma ++ (b'"' ∷ (c ++ b'"' ∷ []))) in
    append_capabilities (caps_buf ++ take (2048 - length caps_buf - 1) entry) false cs

unfoldable pub protocol_build_register : AgentInfo → ℕ → Bytes
unfolding append_capabilities
protocol_build_register agent out_len = snprintf out_len (
    lit "{\"type\":\"register\",\"name\":\""
    ++ (agent.name
        ++ (lit "\",\"version\":\""
            ++ (agent.version
                ++ (lit "\",\"capabilities\":["
                    ++ (append_capabilities [] true agent.capabilities ++ lit "]}"))))))

-- `now` is time(NULL).
unfoldable pub protocol_build_heartbeat : ℕ → Bytes → ℕ → Bytes
unfolding decimal
protocol_build_heartbeat now agent_name out_len = snprintf out_len (
    lit "{\"type\":\"heartbeat\",\"name\":\""
    ++ (agent_name ++ (lit "\",\"timestamp\":" ++ (decimal now ++ lit "}"))))

-- The data is `none` for NULL.
unfoldable pub protocol_build_event : Bytes → Option Bytes → ℕ → Bytes
protocol_build_event event_type payload out_len =
    let value : Bytes = elim payload [ none ↦ lit "null" | some d ↦ d ] in
    snprintf out_len (
      lit "{\"type\":\"event\",\"event_type\":\""
      ++ (event_type ++ (lit "\",\"data\":" ++ (value ++ lit "}"))))

unfoldable pub protocol_build_error : ℕ → ErrorCode → Bytes → ℕ → Bytes
unfolding decimal status_str error_code_str
protocol_build_error id code msg out_len =
    snprintf out_len (id_and_status id error ++ (error_member code ++ message_member msg))
