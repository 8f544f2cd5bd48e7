-- ===== src/RuleEngine/AddRule.antt =====
-- The rules that are added at run time: `handle_add_rule` and `do_reload` of
-- khazar/components/rule-engine/main.c, with `protocol_parse_add_rule` of protocol/protocol.c.
pub mod Fresh
use khazar_os.Common.{
  ℕ, zero, suc, ◌+◌, ◌-◌, ◌*◌, ◌/◌, ◌%◌, ◌^◌, ◌≤◌, ◌<◌, ◌≡◌, refl, sym, ap, ◌∙◌, ◌≢◌, ◌↔◌, ◌⊎◌, inl,
  inr, Bool, true, false, not, ◌&&◌, ◌||◌, Option, none, some, List, [], ◌∷◌, ◌++◌, map, arith, leb,
  ltb, ◌==◌, if◌then◌else◌, length, take, drop, get_or, get_elem?, set, ℤ, pos, negsuc, ltb_ℤ,
  pos_part, neg_part, sub_ℕ, ◌+ℤ◌, ◌≤ℤ◌, ◌<ℤ◌, ◌>>=◌, Bool-cases, Option-cases, length-append,
  length-set, replicate, ltb→lt, lt→ltb,
}
use khazar_os.CString.{
  Bytes, lit, str_eq, strncpy, has_prefix, strstr, is_some, contains, strchr, tolower, isspace,
  skip_spaces,
}
use khazar_os.CString.Lines.{span_not}
use khazar_os.RuleEngine.Intent.{RuleSource, runtime}
use khazar_os.RuleEngine.Cache.{Cache, cache_clear}
use khazar_os.RuleEngine.Pipeline.{Tables}
use khazar_os.RuleEngine.Rules.{
  strtok, add_regex, add_token, add_intent, add_alias, RuleFiles, rules_load_all,
}

-- while (*p == ' ' || *p == '"') p++
unfoldable pub skip_quotes : Bytes → Bytes
skip_quotes [] = []
skip_quotes (c ∷ s) = let rest = skip_quotes s in if c == b' ' || c == b'"' then rest else c ∷ s

-- The text behind the key up to a quote, cut to the buffer; nothing without the quote.
unfoldable pub text_of : Bytes → Bytes → ℕ → Option Bytes
unfolding strstr strchr skip_quotes span_not
text_of json key room = do
  p ← strstr json key
  q ← strchr p b':'
  let s = skip_quotes (drop 1 q)
  r ← strchr s b'"'
  some (span_not b'"' room s).0

-- The type and the data of a rule, if both are there.
unfoldable pub protocol_parse_add_rule : Bytes → Option (Bytes × Bytes)
unfolding text_of
protocol_parse_add_rule json = do
  type_ ← text_of json (lit "\"rule_type\"") 63
  payload ← text_of json (lit "\"data\"") 65535
  some (type_, payload)

-- The tables and the cache of the daemon.
pub record Daemon : Type 0 where
  pub tables : Tables
  pub cache : Cache

abbrev pub same_text : Bytes → Bytes
same_text s = s

unfoldable pub add_rule : (Bytes → Bool) → Bytes → Bytes → Tables → Tables × Bool
unfolding str_eq strtok add_regex add_token add_intent add_alias
add_rule compiles rule_type rule_data t =
    let fields = strtok rule_data in
    let regex = add_regex same_text runtime compiles fields t.rules in
    let tokens = add_token same_text runtime fields t.tokens in
    let intents = add_intent same_text runtime fields t.intents in
    let aliases = add_alias same_text runtime fields t.aliases in
    if str_eq rule_type (lit "regex")
    then (record t { rules = regex.0 }, regex.1)
    else if str_eq rule_type (lit "token")
    then (record t { tokens = tokens.0 }, tokens.1)
    else if str_eq rule_type (lit "intent")
    then (record t { intents = intents.0 }, intents.1)
    else if str_eq rule_type (lit "alias")
    then (record t { aliases = aliases.0 }, aliases.1)
    else (t, false)

abbrev pub rule_added : Bytes → Bytes
rule_added rule_type =
    lit "{\"type\":\"response\",\"status\":\"rule_added\",\"rule_type\":\""
    ++ (rule_type ++ lit "\"}")

abbrev pub invalid_rule : Bytes
invalid_rule = lit "{\"type\":\"response\",\"status\":\"error\",\"message\":\"invalid_rule\"}"

abbrev pub invalid_format : Bytes
invalid_format = lit "{\"id\":0,\"type\":\"error\",\"error_code\":\"INVALID_RULE_FORMAT\"}"

-- The end: the cache is cleared if a rule was added.
unfoldable pub finish : Cache → Bytes → Tables × Bool → Daemon × Bytes
finish cache rule_type (tables, added) =
    if added
    then (record { tables = tables; cache = cache_clear cache }, rule_added rule_type)
    else (record { tables = tables; cache = cache }, invalid_rule)

-- The daemon, and the answer.
unfoldable pub handle_add_rule : (Bytes → Bool) → Bytes → Daemon → Daemon × Bytes
unfolding protocol_parse_add_rule add_rule finish
handle_add_rule compiles message d = elim (protocol_parse_add_rule message) [
  | none ↦ (d, invalid_format)
  | some (rule_type, rule_data) ↦
      finish d.cache rule_type (add_rule compiles rule_type rule_data d.tables)
]

unfoldable pub do_reload : (Bytes → Bool) → Option RuleFiles → Daemon → Daemon
unfolding rules_load_all
do_reload compiles files d = record {
  tables = (rules_load_all compiles files d.tables).0;
  cache = cache_clear d.cache;
}
