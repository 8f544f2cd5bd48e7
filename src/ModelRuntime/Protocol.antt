-- ===== src/ModelRuntime/Protocol.antt =====
-- The messages of the model runtime: khazar/components/model-runtime/protocol/protocol.c and
-- include/common.h. A floating-point number is the text whose value it has. Each answer fits the 65536 bytes
-- of its buffer.
use khazar_os.Common.{
  ℕ, ◌+◌, ◌-◌, Bool, ◌||◌, Option, none, some, [], ◌∷◌, ◌++◌, ◌==◌, if◌then◌else◌, length, drop, ℤ,
  pos, ◌>>=◌,
}
use khazar_os.CString.{Bytes, lit, strstr, is_some, contains, strchr}
use khazar_os.CString.Lines.{span_not, atoi, decimal}

pub data MessageType : Type 0 where
  rmsg_unknown rmsg_inference rmsg_ping rmsg_version rmsg_load_model rmsg_unload_model rmsg_status :
      MessageType

-- The call returns 0 for every text.
unfoldable pub protocol_parse_type : Bytes → MessageType
unfolding strstr is_some
protocol_parse_type raw =
    if contains raw (lit "\"type\":\"ping\"")
    then rmsg_ping
    else if contains raw (lit "\"type\":\"version\"")
    then rmsg_version
    else if contains raw (lit "\"type\":\"load_model\"")
    then rmsg_load_model
    else if contains raw (lit "\"type\":\"unload_model\"")
    then rmsg_unload_model
    else if contains raw (lit "\"type\":\"status\"")
    then rmsg_status
    else if contains raw (lit "\"type\":\"inference\"") || contains raw (lit "\"prompt\"")
    then rmsg_inference
    else rmsg_unknown

-- while (*p == ' ' || *p == '\t') p++
unfoldable pub skip_blanks : Bytes → Bytes
skip_blanks [] = []
skip_blanks (c ∷ s) = let rest = skip_blanks s in if c == b' ' || c == b'\t' then rest else c ∷ s

-- if (*p != '"') return -1
unfoldable pub quoted_at : ℕ → Bytes → Option Bytes
unfolding span_not
quoted_at n [] = none
quoted_at n (c ∷ s) = if c == b'"' then some (span_not b'"' n s).0 else none

unfoldable pub extract_str : Bytes → Bytes → ℕ → Option Bytes
unfolding strstr strchr skip_blanks quoted_at
extract_str json key bufsz = do
  p ← strstr json (b'"' ∷ (key ++ b'"' ∷ []))
  q ← strchr p b':'
  quoted_at (bufsz - 1) (skip_blanks (drop 1 q))

-- The text behind the key and the colon, for a value without quotes.
unfoldable pub number_text : Bytes → Bytes → Option Bytes
unfolding strstr skip_blanks
number_text json key = do
  p ← strstr json (b'"' ∷ (key ++ b'"' ∷ b':' ∷ []))
  some (skip_blanks (drop (length key + 3) p))

unfoldable pub or_else {ℓ} : {A : Type ℓ} → Option A → Option A → Option A
or_else (some a) o = some a
or_else none o = o

unfoldable pub or_default {ℓ} : {A : Type ℓ} → Option A → A → A
or_default (some a) d = a
or_default none d = d

-- The text that `atoi`, `strtol` or `atof` reads.
unfoldable pub extract_number : Bytes → Bytes → Option Bytes
unfolding or_else extract_str number_text
extract_number json key = or_else (extract_str json key 32) (number_text json key)

unfoldable pub extract_int : Bytes → Bytes → Option ℤ
unfolding extract_number atoi
extract_int json key = do s ← extract_number json key; some (atoi s)

-- The fields of `inference_request_t` that are set; the others are 0.
pub record InferenceRequest : Type 0 where
  pub id : ℕ
  pub prompt : Bytes
  pub system_prompt : Bytes
  pub max_tokens : ℤ
  pub temperature : Bytes
  pub top_p : Bytes

unfoldable pub protocol_parse_inference : Bytes → InferenceRequest
unfolding extract_str extract_int extract_number or_default
protocol_parse_inference raw = record {
  id = 0;
  prompt = or_default (extract_str raw (lit "prompt") 4096) [];
  system_prompt = or_default (extract_str raw (lit "system_prompt") 4096) [];
  max_tokens = or_default (extract_int raw (lit "max_tokens")) (pos 256);
  temperature = or_default (extract_number raw (lit "temperature")) (lit "0.7");
  top_p = or_default (extract_number raw (lit "top_p")) (lit "0.9");
}

pub record InferenceResponse : Type 0 where
  pub id : ℕ
  pub generated_text : Bytes
  pub tokens_generated : ℕ
  pub tokens_per_second : Bytes
  pub success : Bool
  pub error_message : Bytes

-- What stands behind the backslash, `none` for a byte that is copied as it is.
unfoldable pub escape_of : ℕ → Option ℕ
escape_of c =
    if c == b'"'
    then some b'"'
    else if c == b'\\'
    then some b'\\'
    else if c == b'\n'
    then some b'n'
    else none

-- One round of the loop.
unfoldable pub escape_byte : ℕ → Bytes
unfolding escape_of
escape_byte c = elim (escape_of c) [ none ↦ c ∷ [] | some d ↦ b'\\' ∷ d ∷ [] ]

-- The loop, with `room` bytes left before its bound.
unfoldable pub escape_text : ℕ → Bytes → Bytes
unfolding escape_byte
escape_text room [] = []
escape_text room (c ∷ s) =
    let rest = escape_text (room - length (escape_byte c)) s in
    if room == 0 then [] else escape_byte c ++ rest

unfoldable pub protocol_build_inference_response : InferenceResponse → Bytes
protocol_build_inference_response resp =
    if resp.success
    then lit "{\"id\":"
      ++ (decimal resp.id
          ++ (lit ",\"type\":\"inference_response\",\"success\":true,\"text\":\""
              ++ (escape_text 16_382 resp.generated_text
                  ++ (lit "\",\"tokens_generated\":"
                      ++ (decimal resp.tokens_generated
                          ++ (lit ",\"tokens_per_second\":"
                              ++ (resp.tokens_per_second ++ lit "}")))))))
    else lit "{\"id\":"
      ++ (decimal resp.id
          ++ (lit ",\"type\":\"inference_response\",\"success\":false,\"error\":\""
              ++ (resp.error_message ++ lit "\"}")))

abbrev pub protocol_build_ping : Bytes
protocol_build_ping = lit "{\"type\":\"inference_response\",\"status\":\"alive\"}"

unfoldable pub protocol_build_error : Bytes → Bytes
protocol_build_error msg =
    lit "{\"type\":\"inference_response\",\"success\":false,\"error\":\"" ++ (msg ++ lit "\"}")
