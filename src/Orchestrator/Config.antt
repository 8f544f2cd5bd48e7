-- ===== src/Orchestrator/Config.antt =====
-- The orchestrator's configuration: khazar/components/orchestrator/config/config.c.
pub mod Loaded
use khazar_os.Common.{
  ℕ, zero, suc, ◌+◌, ◌-◌, ◌*◌, ◌/◌, ◌%◌, ◌^◌, ◌≤◌, ◌<◌, ◌≡◌, refl, sym, ap, ◌∙◌, ◌≢◌, ◌↔◌, ◌⊎◌, inl,
  inr, Bool, true, false, not, ◌&&◌, ◌||◌, Option, none, some, List, [], ◌∷◌, ◌++◌, map, arith, leb,
  ltb, ◌==◌, if◌then◌else◌, length, take, drop, get_or, get_elem?, set, ℤ, pos, negsuc, ltb_ℤ,
  pos_part, neg_part, sub_ℕ, ◌+ℤ◌, ◌≤ℤ◌, ◌<ℤ◌, ◌>>=◌, Bool-cases, Option-cases, length-append,
  length-set, replicate, ltb→lt, lt→ltb,
}
use khazar_os.CString.{
  Bytes, lit, str_eq, strncpy, has_prefix, strstr, is_some, contains, strchr, tolower, isspace,
  skip_spaces,
}
use mathlib.Core.Option
use khazar_os.CString.Lines.{whole_lines, atoi}
use khazar_os.Settings.{ConfigFile, no_path, not_opened, contents, load_lines, is_true, or_keep}

pub record Config : Type 0 where
  pub socket_path : Bytes
  pub max_connections : ℤ
  pub request_timeout_ms : ℤ
  pub enable_metrics : Bool
  pub log_level : ℕ
  pub log_file : Bytes
  pub rule_engine_socket : Bytes
  pub policy_engine_socket : Bytes
  pub classifier_socket : Bytes

abbrev pub config_set_defaults : Config
config_set_defaults = record {
  socket_path = lit "/run/ai-orchestrator.sock";
  max_connections = pos 256;
  request_timeout_ms = pos 3000;
  enable_metrics = true;
  log_level = 2;
  log_file = [];
  rule_engine_socket = lit "/run/ai-rule-engine.sock";
  policy_engine_socket = lit "/run/ai-policy-engine.sock";
  classifier_socket = lit "/run/ai-intent-classifier.sock";
}

-- What stands in front of the last quote.
unfoldable pub before_quote : Bytes → Option Bytes
unfolding strchr is_some
before_quote [] = none
before_quote (c ∷ s) =
    let rest : Option Bytes = Option.map (λ t. c ∷ t) (before_quote s) in
    if c == b'"' && not (is_some (strchr s b'"')) then some [] else rest

-- The text between the first byte, a quote, and the last quote behind it.
unfoldable pub quoted_value : Bytes → Option Bytes
unfolding before_quote
quoted_value [] = none
quoted_value (c ∷ s) = if c == b'"' then Option.map (λ t. strncpy 255 t) (before_quote s) else none

unfoldable pub level_of : Bytes → Option ℕ
level_of v =
    if str_eq v (lit "TRACE")
    then some 0
    else if str_eq v (lit "DEBUG")
    then some 1
    else if str_eq v (lit "INFO")
    then some 2
    else if str_eq v (lit "WARN")
    then some 3
    else if str_eq v (lit "ERROR")
    then some 4
    else if str_eq v (lit "FATAL")
    then some 5
    else none

-- The chain of comparisons.
abbrev pub setters : List (Bytes × (Bytes → Config → Config))
setters =
    (lit "socket_path", λ v c. record c { socket_path = or_keep (quoted_value v) c.socket_path })
    ∷ (lit "max_connections", λ v c. record c { max_connections = atoi v })
    ∷ (lit "request_timeout_ms", λ v c. record c { request_timeout_ms = atoi v })
    ∷ (lit "enable_metrics", λ v c. record c { enable_metrics = is_true v })
    ∷ (lit "log_level", λ v c. record c { log_level = or_keep (level_of v) c.log_level })
    ∷ (lit "log_file", λ v c. record c { log_file = or_keep (quoted_value v) c.log_file })
    ∷ (
      lit "rule_engine_socket",
      λ v c. record c { rule_engine_socket = or_keep (quoted_value v) c.rule_engine_socket },
    )
    ∷ (
      lit "policy_engine_socket",
      λ v c. record c { policy_engine_socket = or_keep (quoted_value v) c.policy_engine_socket },
    )
    ∷ []

unfoldable pub is_blank : ℕ → Bool
is_blank c = c == b' ' || c == b'\t'

unfoldable pub is_end : ℕ → Bool
is_end c = c == b' ' || c == b'\t' || c == b'\n' || c == b'\r'

unfoldable pub skip_blanks : Bytes → Bytes
unfolding is_blank
skip_blanks [] = []
skip_blanks (c ∷ s) = let rest = skip_blanks s in if is_blank c then rest else c ∷ s

unfoldable pub all_of : (ℕ → Bool) → Bytes → Bool
all_of p [] = true
all_of p (c ∷ s) = p c && all_of p s

-- while (ke > key && ..) *ke-- = '\0': the first byte stays.
unfoldable pub trim_tail : (ℕ → Bool) → Bytes → Bytes
unfolding all_of
trim_tail p [] = []
trim_tail p (c ∷ s) = let rest = trim_tail p s in if all_of p s then c ∷ [] else c ∷ rest

-- The part in front of the first '=' and the part behind it.
unfoldable pub split_pair : Bytes → Option (Bytes × Bytes)
split_pair [] = none
split_pair (c ∷ s) =
    let rest : Option (Bytes × Bytes) = Option.map (λ kv. (c ∷ kv.0, kv.1)) (split_pair s) in
    if c == b'=' then some ([], s) else rest

-- From the line without the blanks in front.
unfoldable pub skipped_pair : Bytes → Option (Bytes × Bytes)
unfolding split_pair skip_blanks trim_tail is_blank is_end
skipped_pair [] = none
skipped_pair (c ∷ line) =
    let pair : Option (Bytes × Bytes) =
      Option.map
        (λ kv. (trim_tail is_blank (skip_blanks kv.0), trim_tail is_end (skip_blanks kv.1)))
        (split_pair (c ∷ line)) in
    if c == b'#' || c == b'\n' || c == b'\r' then none else pair

unfoldable pub pair_of : Bytes → Option (Bytes × Bytes)
unfolding skip_blanks skipped_pair
pair_of line = skipped_pair (skip_blanks line)

-- The configuration; every call returns 0.
unfoldable pub config_load : ConfigFile → Config
unfolding load_lines pair_of whole_lines
config_load no_path = config_set_defaults
config_load not_opened = config_set_defaults
config_load (contents file) = load_lines pair_of setters (whole_lines 511 file) config_set_defaults
