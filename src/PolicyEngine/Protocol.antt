-- ===== src/PolicyEngine/Protocol.antt =====
-- The messages of the policy engine: khazar/components/policy-engine/protocol/protocol.c. The code
-- looks for keys anywhere in the text; a message that is built is given whole, and the handler cuts
-- it to its buffer.
use khazar_os.Common.{
  ℕ, zero, suc, ◌-◌, Option, none, some, [], ◌∷◌, ◌++◌, ltb, ◌==◌, if◌then◌else◌, length, drop,
  ◌>>=◌,
}
use khazar_os.CString.{Bytes, lit, strncpy, strstr, is_some, contains, strchr}
use khazar_os.CString.Lines.{span_not, strtoull, decimal}
use khazar_os.PolicyEngine.Store.{
  allow, PolicyRule, PolicyRequest, PolicyResponse, policy_action_str, policy_action_from_str,
}
use khazar_os.PolicyEngine.Load.{fresh_rule}

pub data MessageType : Type 0 where
  unknown check_policy policy_response ping version reload add_rule : MessageType

-- The text behind the first quote at or after the first colon at or after `"key"`.
unfoldable pub value_of : Bytes → Bytes → Option Bytes
unfolding strstr strchr
value_of raw key = do
  p ← strstr raw (b'"' ∷ (key ++ b'"' ∷ []))
  q ← strchr p b':'
  v ← strchr q b'"'
  some (drop 1 v)

-- The copy loop of `json_extract_str`, at most `n` bytes.
unfoldable pub copy_escaped : ℕ → Bytes → Bytes
copy_escaped zero s = []
copy_escaped (suc n) [] = []
copy_escaped (suc n) (c ∷ []) = if c == b'"' then [] else c ∷ []
copy_escaped (suc n) (c ∷ d ∷ s) =
    let skipped = copy_escaped n s in
    let plain = copy_escaped n (d ∷ s) in
    if c == b'"' then [] else if c == b'\\' then d ∷ skipped else c ∷ plain

-- The result of the call is the length of the text, 0 where no value is found.
unfoldable pub json_extract_str : Bytes → Bytes → ℕ → Bytes
unfolding value_of copy_escaped
json_extract_str json key out_len = elim (value_of json key) [
  | none ↦ []
  | some s ↦ copy_escaped (out_len - 1) s
]

unfoldable pub protocol_parse : Bytes → MessageType
unfolding strstr is_some
protocol_parse raw =
    if contains raw (lit "\"type\":\"ping\"")
    then ping
    else if contains raw (lit "\"type\":\"version\"")
    then version
    else if contains raw (lit "\"type\":\"reload\"")
    then reload
    else if contains raw (lit "\"type\":\"add_rule\"")
    then add_rule
    else if contains raw (lit "\"type\":\"policy_check\"")
    then check_policy
    else unknown

-- The copy loops of `protocol_parse_policy_check`, which know no escapes.
unfoldable pub copy_plain : Bytes → Bytes → ℕ → Bytes
unfolding value_of span_not
copy_plain raw key n = elim (value_of raw key) [ none ↦ [] | some s ↦ (span_not b'"' n s).0 ]

unfoldable pub parse_id : Bytes → ℕ
unfolding strstr strchr strtoull
parse_id raw = elim (strstr raw (lit "\"id\"")) [
  | none ↦ 0
  | some p ↦ elim (strchr p b':') [ none ↦ 0 | some q ↦ strtoull (drop 1 q) ]
]

unfoldable pub protocol_parse_policy_check : Bytes → PolicyRequest
unfolding parse_id copy_plain
protocol_parse_policy_check raw = record {
  id = parse_id raw;
  agent_name = copy_plain raw (lit "agent") 63;
  capability = copy_plain raw (lit "capability") 63;
  target = copy_plain raw (lit "target") 127;
}

-- Where nothing is found the field keeps its default. The three texts share a buffer of 256 bytes.
unfoldable pub protocol_parse_add_rule : Bytes → PolicyRule
unfolding json_extract_str
protocol_parse_add_rule raw =
    let act = json_extract_str raw (lit "action") 256 in
    record fresh_rule {
      capability = strncpy 63 (json_extract_str raw (lit "capability") 256);
      agent_name = strncpy 63 (json_extract_str raw (lit "agent") 256);
      action = if ltb 0 (length act) then policy_action_from_str act else allow;
    }

unfoldable pub protocol_build_response : PolicyResponse → Bytes
unfolding decimal policy_action_str
protocol_build_response resp =
    lit "{\"id\":"
    ++ (decimal resp.id
        ++ (lit ",\"type\":\"policy_response\",\"action\":\""
            ++ (policy_action_str resp.action
                ++ (lit "\",\"reason\":\""
                    ++ (resp.reason
                        ++ (lit "\",\"matched_rule\":\"" ++ (resp.matched_rule ++ lit "\"}")))))))

unfoldable pub protocol_build_ping : Bytes
protocol_build_ping = lit "{\"type\":\"policy_response\",\"status\":\"alive\"}"

unfoldable pub protocol_build_version : Bytes
protocol_build_version =
    lit "{\"type\":\"policy_response\",\"version\":\"0.1.0\",\"component\":\"ai-policy-engine\"}"

unfoldable pub protocol_build_error : Bytes → Bytes
protocol_build_error msg =
    lit "{\"type\":\"policy_response\",\"status\":\"error\",\"message\":\"" ++ (msg ++ lit "\"}")

unfoldable pub protocol_build_rule_added : Bytes → Bytes
protocol_build_rule_added name =
    lit "{\"type\":\"policy_response\",\"status\":\"rule_added\",\"rule\":\"" ++ (name ++ lit "\"}")
