-- ===== src/Orchestrator/RuleClient.antt =====
-- The client of the rule engine: khazar/components/orchestrator/rule_client/rule_client.c. The
-- exchange over the socket is a parameter, `none` where connecting, writing or reading fails. The
-- confidence that the code extracts is only logged by its caller, and left out.
use khazar_os.Common.{ℕ, Option, none, some, [], ◌∷◌, ◌++◌, if◌then◌else◌}
use khazar_os.CString.{Bytes, lit, strncpy, strstr, is_some, contains}
use khazar_os.Orchestrator.Message.{Intent}
use khazar_os.Orchestrator.PolicyClient

unfoldable pub query_request : Bytes → Bytes
query_request query = lit "{\"id\":1,\"type\":\"request\",\"query\":\"" ++ (query ++ lit "\"}")

-- The code is that of the policy client, letter for letter.
unfoldable pub extract_str : Bytes → Bytes → ℕ → Option Bytes
extract_str = PolicyClient.extract_str

unfoldable pub or_empty : Option Bytes → Bytes
or_empty none = []
or_empty (some s) = s

-- Each text goes through a buffer of its own and then into the intent.
unfoldable pub read_intent : Bytes → Option Intent
unfolding extract_str strstr is_some or_empty
read_intent response =
    if contains response (lit "\"intent\":\"unknown\"")
    then none
    else some (record {
      action = strncpy 63 (or_empty (extract_str response (lit "action") 128));
      target = strncpy 127 (or_empty (extract_str response (lit "target") 256));
      required_capability = strncpy 63 (or_empty (extract_str response (lit "intent") 128));
    })

unfoldable pub receive : Option Bytes → Option Intent
receive none = none
receive (some []) = none
receive (some (c ∷ response)) = read_intent (strncpy 65535 (c ∷ response))

-- `none` where the call returns -1.
unfoldable pub rule_client_query : (Bytes → Option Bytes) → Bytes → Option Intent
unfolding receive query_request
rule_client_query exchange query = receive (exchange (strncpy 4095 (query_request query)))
