-- ===== src/Orchestrator/IntentClient.antt =====
-- The client of the intent classifier: khazar/components/orchestrator/intent_client/intent_client.c.
-- The exchange over the socket is a parameter. The confidence is only logged, and left out.
pub mod Request
pub mod Answer
pub mod EndToEnd
use khazar_os.Common.{
  ℕ, ◌-◌, ◌||◌, Option, none, some, [], ◌∷◌, ◌++◌, leb, ◌==◌, if◌then◌else◌, length, drop, ◌>>=◌,
}
use khazar_os.CString.{Bytes, lit, str_eq, strncpy, strstr, strchr}
use khazar_os.CString.Lines.{span_not}
use khazar_os.Orchestrator.Message.{Intent}

unfoldable pub skip_blanks : Bytes → Bytes
skip_blanks [] = []
skip_blanks (c ∷ s) = if c == b' ' || c == b'\t' then skip_blanks s else c ∷ s

unfoldable pub quoted : ℕ → Bytes → Bytes
unfolding span_not
quoted n [] = []
quoted n (c ∷ s) = if c == b'"' then (span_not b'"' n s).0 else []

-- The buffer is zeroed before, so a failure leaves the empty text.
unfoldable pub extract_str : Bytes → Bytes → ℕ → Bytes
unfolding strstr strchr skip_blanks quoted
extract_str json key bufsz = elim (do p ← strstr json (b'"' ∷ (key ++ b'"' ∷ [])); strchr p b':') [
  | none ↦ []
  | some q ↦ quoted (bufsz - 1) (skip_blanks (drop 1 q))
]

unfoldable pub classify_request : Bytes → Bytes
classify_request query = lit "{\"type\":\"classify\",\"id\":1,\"query\":\"" ++ (query ++ lit "\"}")

unfoldable pub accept : Intent → Option Intent
unfolding str_eq
accept intent =
    if leb (length intent.required_capability) 0
      || str_eq intent.required_capability (lit "unknown")
    then none
    else some intent

unfoldable pub receive : Option Bytes → Option Intent
unfolding extract_str accept
receive none = none
receive (some []) = none
receive (some (c ∷ response)) =
    let r = strncpy 65535 (c ∷ response) in
    accept (record {
      action = extract_str r (lit "action") 64;
      target = extract_str r (lit "target") 128;
      required_capability = extract_str r (lit "intent") 64;
    })

-- `none` where the call returns -1.
unfoldable pub intent_client_classify : (Bytes → Option Bytes) → Bytes → Option Intent
unfolding receive classify_request
intent_client_classify exchange query = receive (exchange (strncpy 8191 (classify_request query)))
