-- ===== src/IntentClassifier/Protocol.antt =====
-- The messages of the intent classifier: khazar/components/intent-classifier/protocol/protocol.c and
-- include/common.h.
use khazar_os.Common.{
  ℕ, zero, suc, ◌+◌, ◌-◌, Bool, ◌||◌, Option, none, some, [], ◌∷◌, ◌++◌, ltb, ◌==◌, if◌then◌else◌,
  drop, ◌>>=◌,
}
use khazar_os.CString.{Bytes, lit, strstr, is_some, contains, strchr}
use khazar_os.CString.Lines.{strtoull, decimal}

-- `classifier_request_t`
pub record Query : Type 0 where
  pub id : ℕ
  pub query : Bytes

-- `classifier_response_t`; the confidence is the text that "%.2f" prints of it.
pub record Classified : Type 0 where
  pub id : ℕ
  pub intent : Bytes
  pub target : Bytes
  pub confidence : Bytes
  pub fallback : Bool
  pub raw_output : Bytes

pub data MessageType : Type 0 where
  cmsg_unknown cmsg_classify cmsg_ping cmsg_version cmsg_reload : MessageType

-- The call returns 0 for every text.
unfoldable pub protocol_parse_type : Bytes → MessageType
unfolding strstr is_some
protocol_parse_type raw =
    if contains raw (lit "\"type\":\"ping\"")
    then cmsg_ping
    else if contains raw (lit "\"type\":\"version\"")
    then cmsg_version
    else if contains raw (lit "\"type\":\"reload\"")
    then cmsg_reload
    else if contains raw (lit "\"type\":\"classify\"") || contains raw (lit "\"query\"")
    then cmsg_classify
    else cmsg_unknown

-- while (*p == ' ' || *p == '\t') p++
unfoldable pub skip_blanks : Bytes → Bytes
skip_blanks [] = []
skip_blanks (c ∷ s) = let rest = skip_blanks s in if c == b' ' || c == b'\t' then rest else c ∷ s

-- The copy loop: a backslash before another byte is dropped.
unfoldable pub copy_value : ℕ → Bytes → Bytes
copy_value zero s = []
copy_value (suc n) [] = []
copy_value (suc n) (c ∷ []) = if c == b'"' then [] else c ∷ []
copy_value (suc n) (c ∷ d ∷ s) =
    let skipped = copy_value n s in
    let plain = copy_value n (d ∷ s) in
    if c == b'"' then [] else if c == b'\\' then d ∷ skipped else c ∷ plain

-- if (*p != '"') return -1
unfoldable pub value_at : ℕ → Bytes → Option Bytes
unfolding copy_value
value_at n [] = none
value_at n (c ∷ s) = if c == b'"' then some (copy_value n s) else none

unfoldable pub extract_str : Bytes → Bytes → ℕ → Option Bytes
unfolding strstr strchr skip_blanks value_at
extract_str json key bufsz = do
  p ← strstr json (b'"' ∷ (key ++ b'"' ∷ []))
  q ← strchr p b':'
  value_at (bufsz - 1) (skip_blanks (drop 1 q))

unfoldable pub parse_id : Bytes → ℕ
unfolding strstr strchr strtoull
parse_id raw = elim (do p ← strstr raw (lit "\"id\""); strchr p b':') [
  | none ↦ 0
  | some q ↦ strtoull (drop 1 q)
]

unfoldable pub protocol_parse_classify : Bytes → Query
unfolding parse_id extract_str
protocol_parse_classify raw = record {
  id = parse_id raw;
  query = elim (extract_str raw (lit "query") 2048) [ none ↦ [] | some q ↦ q ];
}

-- The escaping loop while `ei < bound`.
unfoldable pub escape_quotes : ℕ → ℕ → Bytes → Bytes
escape_quotes bound ei [] = []
escape_quotes bound ei (c ∷ s) =
    let escaped = b'\\' ∷ c ∷ escape_quotes bound (ei + 2) s in
    let plain = c ∷ escape_quotes bound (ei + 1) s in
    if ltb ei bound then (if c == b'"' || c == b'\\' then escaped else plain) else []

-- The text fits in the buffer of 65536 bytes.
unfoldable pub protocol_build_classify_response : Classified → Bytes
unfolding decimal escape_quotes
protocol_build_classify_response resp =
    lit "{\"id\":"
    ++ (decimal resp.id
        ++ (lit ",\"type\":\"classify_response\",\"intent\":\""
            ++ (escape_quotes 126 0 resp.intent
                ++ (lit "\",\"target\":\""
                    ++ (escape_quotes 254 0 resp.target
                        ++ (lit "\",\"confidence\":"
                            ++ (resp.confidence
                                ++ (lit ",\"fallback\":"
                                    ++ ((if resp.fallback then lit "true" else lit "false")
                                        ++ lit "}")))))))))

unfoldable pub protocol_build_ping : Bytes
protocol_build_ping = lit "{\"type\":\"classify_response\",\"status\":\"alive\"}"

unfoldable pub protocol_build_version : Bytes
protocol_build_version =
    lit
      "{\"type\":\"classify_response\",\"version\":\"0.1.0\",\"component\":\"ai-intent-classifier\"}"

unfoldable pub protocol_build_error : Bytes → Bytes
protocol_build_error msg =
    lit "{\"type\":\"classify_response\",\"success\":false,\"error\":\"" ++ (msg ++ lit "\"}")
