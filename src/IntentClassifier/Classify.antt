-- ===== src/IntentClassifier/Classify.antt =====
-- Classifying a query: khazar/components/intent-classifier/main.c. What the model runtime sends back is
-- a parameter, and so is `atof`, read as the text that "%.2f" prints of its value, or nothing if that is
-- at most 0.
pub mod Fallback
use khazar_os.Common.{
  ℕ, zero, suc, ◌+◌, ◌-◌, ◌*◌, ◌/◌, ◌%◌, ◌^◌, ◌≤◌, ◌<◌, ◌≡◌, refl, sym, ap, ◌∙◌, ◌≢◌, ◌↔◌, ◌⊎◌, inl,
  inr, Bool, true, false, not, ◌&&◌, ◌||◌, Option, none, some, List, [], ◌∷◌, ◌++◌, map, arith, leb,
  ltb, ◌==◌, if◌then◌else◌, length, take, drop, get_or, get_elem?, set, ℤ, pos, negsuc, ltb_ℤ,
  pos_part, neg_part, sub_ℕ, ◌+ℤ◌, ◌≤ℤ◌, ◌<ℤ◌, ◌>>=◌, Bool-cases, Option-cases, length-append,
  length-set, replicate, ltb→lt, lt→ltb,
}
use khazar_os.CString.{
  Bytes, lit, str_eq, strncpy, has_prefix, strstr, is_some, contains, strchr, tolower, isspace,
  skip_spaces,
}
use khazar_os.CString.Lines.{span_not}
use khazar_os.IntentClassifier.Protocol.{
  Query, Classified, MessageType, cmsg_unknown, cmsg_classify, cmsg_ping, cmsg_version, cmsg_reload,
  protocol_parse_type, protocol_parse_classify, protocol_build_classify_response,
  protocol_build_ping, protocol_build_version, protocol_build_error,
}
use khazar_os.IntentClassifier.Keywords.{KeywordRule, keyword_classify}

-- From the first quote behind the colon behind the key.
unfoldable pub behind_quote : Bytes → Bytes → Option Bytes
unfolding strstr strchr
behind_quote json key = do
  p ← strstr json key
  q ← strchr p b':'
  r ← strchr q b'"'
  some (drop 1 r)

-- The old text stays where there is no new one.
unfoldable pub member_or : Bytes → Bytes → ℕ → Bytes → Bytes
unfolding behind_quote span_not
member_or json key n old = elim (behind_quote json key) [
  | none ↦ old
  | some s ↦ (span_not b'"' n s).0
]

-- while (*cp == ':' || *cp == ' ') cp++
unfoldable pub skip_colons : Bytes → Bytes
skip_colons [] = []
skip_colons (c ∷ s) = let rest = skip_colons s in if c == b':' || c == b' ' then rest else c ∷ s

-- The copy loop for the text of the model: of an unknown escape only the backslash is kept.
unfoldable pub raw_escape : ℕ → ℕ
raw_escape c = if c == b'n' then b'\n' else if c == b'"' then b'"' else b'\\'

unfoldable pub copy_raw : ℕ → Bytes → Bytes
unfolding raw_escape
copy_raw zero s = []
copy_raw (suc n) [] = []
copy_raw (suc n) (c ∷ []) = if c == b'"' then [] else c ∷ []
copy_raw (suc n) (c ∷ d ∷ s) =
    let escaped = copy_raw n s in
    let plain = copy_raw n (d ∷ s) in
    if c == b'"' then [] else if c == b'\\' then raw_escape d ∷ escaped else c ∷ plain

unfoldable pub raw_text : Bytes → Bytes
unfolding behind_quote copy_raw
raw_text response = elim (behind_quote response (lit "\"text\"")) [
  | none ↦ []
  | some s ↦ copy_raw 4095 s
]

unfoldable pub inference_request : Bytes → Bytes
inference_request query =
    let prompt = strncpy 4095 (
      lit "Classify this command: "
      ++ (query ++ lit ". Output JSON with intent, target, action.")) in
    strncpy 4095
      (lit "{\"type\":\"inference\",\"prompt\":\"" ++ (prompt ++ lit "\",\"max_tokens\":128}"))

-- if (resp->raw_output[0] != '\0')
unfoldable pub text_or : Bytes → Bytes → Bytes
text_or [] response = response
text_or (c ∷ raw) response = c ∷ raw

unfoldable pub failed : Classified → Classified
failed resp = record resp { fallback = true }

abbrev pub no_keyword : Classified → Classified
no_keyword resp = record resp {
  intent = lit "unknown";
  target = lit "unknown";
  confidence = lit "0.10";
  fallback = true;
}

-- The branch for when no keyword fits.
unfoldable pub fall_back : List KeywordRule → Bytes → Classified → Classified
fall_back keywords query resp =
    let (found, ok) = keyword_classify keywords query resp in if ok then found else no_keyword resp

abbrev pub blank : Query → Classified
blank req = record {
  id = req.id;
  intent = [];
  target = [];
  confidence = lit "0.00";
  fallback = false;
  raw_output = [];
}

-- A response from the runtime that is no fallback stays.
unfoldable pub finish : Bool → List KeywordRule → Query → Classified → Classified
finish fallback_to_local keywords req resp =
    if resp.fallback && fallback_to_local then fall_back keywords req.query resp else resp

module _ (atof : Bytes → Option Bytes) (runtime : Bytes → Option Bytes) where
  unfoldable pub confidence_of : Bytes → Bytes
  unfolding strstr strchr skip_colons
  confidence_of json =
      let value : Option Bytes = (do
        p ← strstr json (lit "\"confidence\"")
        q ← strchr p b':'
        atof (skip_colons q)) in
      elim value [ none ↦ lit "0.70" | some text ↦ text ]

  -- With the confidence that `classify_with_runtime` sets last.
  unfoldable pub parse_llm_response : Bytes → Classified → Classified
  parse_llm_response json resp = record resp {
    intent = member_or json (lit "\"intent\"") 63 resp.intent;
    target = member_or json (lit "\"target\"") 127 resp.target;
    confidence = confidence_of json;
  }

  unfoldable pub on_runtime_answer : Bytes → Classified → Classified
  on_runtime_answer response resp =
      let raw = raw_text response in
      parse_llm_response (text_or raw response) (record resp { raw_output = raw; fallback = false })

  unfoldable pub classify_with_runtime : Bytes → Classified → Classified
  classify_with_runtime query resp = elim (runtime (inference_request query)) [
    | none ↦ failed resp
    | some [] ↦ failed resp
    | some (c ∷ s) ↦ on_runtime_answer (strncpy 65535 (c ∷ s)) resp
  ]

  unfoldable pub classify : Bool → List KeywordRule → Query → Classified
  classify fallback_to_local keywords req =
      finish fallback_to_local keywords req (classify_with_runtime req.query (blank req))

  unfoldable pub handle_type : Bool → List KeywordRule → MessageType → Bytes → Bytes
  unfolding protocol_build_ping protocol_build_version protocol_build_error
  handle_type fallback_to_local keywords cmsg_ping message = protocol_build_ping
  handle_type fallback_to_local keywords cmsg_version message = protocol_build_version
  handle_type fallback_to_local keywords cmsg_reload message =
      lit "{\"type\":\"classify_response\",\"status\":\"reloaded\"}"
  handle_type fallback_to_local keywords cmsg_classify message =
      protocol_build_classify_response
        (classify fallback_to_local keywords (protocol_parse_classify message))
  handle_type fallback_to_local keywords cmsg_unknown message =
      protocol_build_error (lit "unknown message type")

  unfoldable pub client_handler : Bool → List KeywordRule → Bytes → Bytes
  client_handler fallback_to_local keywords message =
      handle_type fallback_to_local keywords (protocol_parse_type message) message
