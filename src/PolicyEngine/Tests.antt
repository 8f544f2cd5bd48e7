-- ===== src/PolicyEngine/Tests.antt =====
-- The policy engine at concrete inputs.
mod Config
use khazar_os.Common.{◌≡◌, refl, false, none, some, [], ◌∷◌, pos}
use khazar_os.CString.{Bytes, lit, str_eq, strstr, is_some}
use khazar_os.PolicyEngine.Store.{allow, deny, PolicyRule, match_exact, policy_check}
use khazar_os.PolicyEngine.Load.{policy_load_file}
use khazar_os.PolicyEngine.Protocol.{
  protocol_parse_policy_check, check_policy, add_rule, protocol_build_rule_added,
  protocol_parse_add_rule,
}
use khazar_os.PolicyEngine.Store.{PolicyRequest, match_all, max_policies}
use khazar_os.PolicyEngine.Load.{policy_load_dir}
use khazar_os.Common.{map, length-replicate}
use khazar_os.PolicyEngine.Engine.{client_handler, in_response, or_unnamed}
use khazar_os.PolicyEngine.Check.{
  IsDecision, policy_check-IsDecision, relabel, policy_check-relabel,
}
use khazar_os.PolicyEngine.Load.Growth.{Loads, policy_load_file-Loads, policy_load_dir-Loads}
use khazar_os.PolicyEngine.Engine.Effects.{
  client_handler_bound, client_handler_reads, client_handler_full,
}
use khazar_os.Common.{List, ◌≤◌, arith, true, length, replicate}
use khazar_os.PolicyEngine.Load.{flush, load_line, load_lines, load_pair, set_field}
use khazar_os.CString.Lines.{atoi, lines, scan_pair, trim_key, unquote}
use khazar_os.PolicyEngine.Store.{
  consider, match_agent, match_capability, policy_action_from_str, scan,
}
use khazar_os.PolicyEngine.Protocol.{protocol_build_response, protocol_parse}

abbrev toml : Bytes
toml =
    lit
      "# rules\n[rule.a]\ncapability = \"open_application\"\nagent = \"*\"\naction = \"allow\"\npriority = 20\n\n[rule.b]\ncapability = \"*\"\nagent = \"*\"\naction = \"deny\"\nmessage = \"no\"\n"

abbrev rule_a : PolicyRule
rule_a = record {
  capability = lit "open_application";
  agent_name = lit "*";
  action = allow;
  require_root = false;
  match_type = match_exact;
  message = [];
  priority = pos 20;
}

abbrev rule_b : PolicyRule
rule_b = record {
  capability = lit "*";
  agent_name = lit "*";
  action = deny;
  require_root = false;
  match_type = match_exact;
  message = lit "no";
  priority = pos 10;
}

load_toml : policy_load_file [] (some toml) ≡ (rule_a ∷ rule_b ∷ [], pos 2)
unfolding policy_load_file flush load_lines lines load_line is_some strstr load_pair scan_pair
    set_field str_eq trim_key unquote policy_action_from_str atoi
load_toml = refl

abbrev check_message : Bytes
check_message =
    lit
      "{\"type\":\"policy_check\",\"id\":7,\"agent\":\"desktop\",\"capability\":\"open_application\",\"target\":\"firefox\"}"

handler_check : client_handler str_eq none (rule_a ∷ rule_b ∷ []) check_message ≡ (
  rule_a ∷ rule_b ∷ [],
  lit
      "{\"id\":7,\"type\":\"policy_response\",\"action\":\"allow\",\"reason\":\"\",\"matched_rule\":\"cap=open_application agent=*\"}",
)
unfolding client_handler protocol_parse protocol_build_response policy_check scan consider
    match_capability str_eq match_agent protocol_parse_policy_check
handler_check = refl

abbrev store : List PolicyRule
store = rule_b ∷ rule_a ∷ []

abbrev request : PolicyRequest
request = record {
  id = 7;
  agent_name = lit "desktop";
  capability = lit "open_application";
  target = lit "firefox";
}

policy_check-IsDecision_example :
    ((policy_check str_eq store request).id ≡ 7)
    × IsDecision str_eq request store (policy_check str_eq store request)
policy_check-IsDecision_example = policy_check-IsDecision str_eq request store

policy_check-relabel_test :
    policy_check str_eq (map (relabel (λ r. true) (λ r. match_all)) store) request
    ≡ policy_check str_eq store request
policy_check-relabel_test = policy_check-relabel str_eq request (λ r. true) (λ r. match_all) store

policy_load_file-Loads_test : Loads [] (policy_load_file [] (some toml))
policy_load_file-Loads_test = policy_load_file-Loads [] (some toml)

policy_load_dir-Loads_test :
    Loads (rule_a ∷ []) (policy_load_dir (rule_a ∷ []) (some (some toml ∷ none ∷ [])))
policy_load_dir-Loads_test = policy_load_dir-Loads (rule_a ∷ []) (some (some toml ∷ none ∷ []))

abbrev add_message : Bytes
add_message = lit "{\"type\":\"add_rule\",\"capability\":\"screenshot\",\"action\":\"allow\"}"

client_handler_bound_test : length (client_handler str_eq none store add_message).0 ≤ max_policies
client_handler_bound_test = client_handler_bound str_eq none store add_message (omega arith)

check_type : protocol_parse check_message ≡ check_policy
unfolding protocol_parse
check_type = refl

add_type : protocol_parse add_message ≡ add_rule
unfolding protocol_parse
add_type = refl

client_handler_reads_test : (client_handler str_eq none store check_message).0 ≡ store
client_handler_reads_test =
    client_handler_reads str_eq none store check_message (λ e. cc (check_type, e))
      (λ e. cc (check_type, e))

abbrev full_store : List PolicyRule
full_store = replicate max_policies rule_b

full_length : max_policies ≤ length full_store
full_length = omega (arith, length-replicate max_policies rule_b)

client_handler_full_test : client_handler str_eq none full_store add_message ≡ (
  full_store,
  in_response
      (protocol_build_rule_added (or_unnamed (protocol_parse_add_rule add_message).capability)),
)
client_handler_full_test =
    client_handler_full str_eq none full_store add_message add_type full_length
