-- ===== src/Orchestrator/PolicyClient.antt =====
-- The client of the policy engine: khazar/components/orchestrator/policy_client/policy_client.c. The
-- exchange over the socket is a parameter: the bytes of one `read` after one `write`, `none` where
-- connecting, writing or reading fails.
pub mod Request
pub mod Answer
pub mod EndToEnd
use khazar_os.Common.{
  ℕ, zero, suc, ◌+◌, ◌-◌, ◌*◌, ◌/◌, ◌%◌, ◌^◌, ◌≤◌, ◌<◌, ◌≡◌, refl, sym, ap, ◌∙◌, ◌≢◌, ◌↔◌, ◌⊎◌, inl,
  inr, Bool, true, false, not, ◌&&◌, ◌||◌, Option, none, some, List, [], ◌∷◌, ◌++◌, map, arith, leb,
  ltb, ◌==◌, if◌then◌else◌, length, take, drop, get_or, get_elem?, set, ℤ, pos, negsuc, ltb_ℤ,
  pos_part, neg_part, sub_ℕ, ◌+ℤ◌, ◌≤ℤ◌, ◌<ℤ◌, ◌>>=◌, Bool-cases, Option-cases, length-append,
  length-set, replicate, ltb→lt, lt→ltb,
}
use khazar_os.CString.{
  Bytes, lit, str_eq, strncpy, has_prefix, strstr, is_some, contains, strchr, tolower, isspace,
  skip_spaces,
}
use khazar_os.CString.Lines.{decimal}

-- The text up to the next quote, or all of it, as far as the buffer goes.
unfoldable pub copy_quoted : Bytes → ℕ → Bytes
unfolding strchr
copy_quoted p bufsz = elim (strchr p b'"') [
  | none ↦ strncpy (bufsz - 1) p
  | some end_ ↦
      let len = length p - length end_ in take (if leb bufsz len then bufsz - 1 else len) p
]

-- `none` where the key is not found, and the buffer stays as it was.
unfoldable pub extract_str : Bytes → Bytes → ℕ → Option Bytes
unfolding strstr
extract_str json key bufsz =
    let search = b'"' ∷ (key ++ lit "\":\"") in
    elim (strstr json search) [
      | none ↦ none
      | some found ↦ some (copy_quoted (drop (length search) found) bufsz)
    ]

unfoldable pub or_empty : Option Bytes → Bytes
or_empty none = []
or_empty (some s) = s

unfoldable pub check_request : Bytes → Bytes → Bytes → Bytes
check_request agent_name capability target =
    lit "{\"type\":\"policy_check\",\"id\":1,\"agent\":\""
    ++ (agent_name
        ++ (lit "\",\"capability\":\""
            ++ (capability ++ (lit "\",\"target\":\"" ++ (target ++ lit "\"}")))))

pub record Verdict : Type 0 where
  pub allowed : Bool
  pub reason : Bytes

unfoldable pub read_verdict : Bytes → ℕ → Verdict
unfolding extract_str or_empty str_eq
read_verdict response reason_len = record {
  allowed = str_eq (or_empty (extract_str response (lit "action") 32)) (lit "allow");
  reason = or_empty (extract_str response (lit "reason") reason_len);
}

-- What follows the exchange; an empty read is an error too.
unfoldable pub receive : Option Bytes → ℕ → Option Verdict
receive none reason_len = none
receive (some []) reason_len = none
receive (some (c ∷ response)) reason_len =
    some (read_verdict (strncpy 4095 (c ∷ response)) reason_len)

-- `none` where the call returns -1.
unfoldable pub policy_client_check :
    (Bytes → Option Bytes) → Bytes → Bytes → Bytes → ℕ → Option Verdict
unfolding receive
policy_client_check exchange agent_name capability target reason_len =
    receive (exchange (strncpy 4095 (check_request agent_name capability target))) reason_len
