-- ===== src/RuleEngine/Intents.antt =====
-- The table of whole queries: khazar/components/rule-engine/intent/intent.c. `g_intents[0 ..
-- g_intent_count)` is a list. The query is shorter than its buffer, as the server's read ensures.
pub mod Lookup
use khazar_os.Common.{
  ℕ, zero, suc, ◌+◌, ◌-◌, ◌*◌, ◌/◌, ◌%◌, ◌^◌, ◌≤◌, ◌<◌, ◌≡◌, refl, sym, ap, ◌∙◌, ◌≢◌, ◌↔◌, ◌⊎◌, inl,
  inr, Bool, true, false, not, ◌&&◌, ◌||◌, Option, none, some, List, [], ◌∷◌, ◌++◌, map, arith, leb,
  ltb, ◌==◌, if◌then◌else◌, length, take, drop, get_or, get_elem?, set, ℤ, pos, negsuc, ltb_ℤ,
  pos_part, neg_part, sub_ℕ, ◌+ℤ◌, ◌≤ℤ◌, ◌<ℤ◌, ◌>>=◌, Bool-cases, Option-cases, length-append,
  length-set, replicate, ltb→lt, lt→ltb,
}
use khazar_os.CString.{
  Bytes, lit, str_eq, strncpy, has_prefix, strstr, is_some, contains, strchr, tolower, isspace,
  skip_spaces,
}
use khazar_os.RuleEngine.Intent.{IntentType, RuleSource, by_intent}
use khazar_os.RuleEngine.Result.{MatchResult, no_match, same_source, keep}

pub record IntentEntry : Type 0 where
  pub query : Bytes
  pub intent : IntentType
  pub target : Bytes
  pub action : Bytes
  pub source : RuleSource

abbrev pub max_intent_entries : ℕ
max_intent_entries = 2048

abbrev pub intent_init : List IntentEntry
intent_init = []

-- The new table, and whether the call returns 0.
unfoldable pub intent_add :
    List IntentEntry → Bytes → IntentType → Bytes → Bytes → RuleSource → List IntentEntry × Bool
intent_add es query intent target action source =
    if leb max_intent_entries (length es) then (es, false) else (
      es
          ++ record {
            query = strncpy 2047 query;
            intent = intent;
            target = strncpy 255 target;
            action = strncpy 127 action;
            source = source;
          }
            ∷ [],
      true,
    )

unfoldable pub strtolower : Bytes → Bytes
strtolower s = map tolower s

-- The result for an entry that is equal to the query.
unfoldable pub found : IntentEntry → MatchResult
found e = record {
  intent = e.intent;
  target = strncpy 255 e.target;
  action = strncpy 127 e.action;
  confidence = record { num = 99; den = 100 };
  source = by_intent;
  matched_pattern = strncpy 127 e.query;
}

-- The loop of `intent_lookup`, with the query in lower case.
unfoldable pub find_entry : Bytes → List IntentEntry → Option IntentEntry
find_entry query_lower [] = none
find_entry query_lower (e ∷ es) =
    let rest = find_entry query_lower es in
    if str_eq query_lower (strtolower (strncpy 2047 e.query)) then some e else rest

unfoldable pub answer : Option IntentEntry → MatchResult × Bool
answer none = (no_match, false)
answer (some e) = (found e, true)

-- The result, and whether the call returns 0.
unfoldable pub intent_lookup : List IntentEntry → Bytes → MatchResult × Bool
unfolding find_entry answer
intent_lookup es query = answer (find_entry (strtolower (strncpy 2047 query)) es)

unfoldable pub intent_clear_rules : List IntentEntry → RuleSource → List IntentEntry
intent_clear_rules es source = keep (λ e. not (same_source e.source source)) es
