-- ===== src/RuleEngine/Config.antt =====
-- The rule engine's configuration: khazar/components/rule-engine/config/config.c. A floating-point
-- setting is the text whose value it has.
pub mod Blank
use khazar_os.Common.{
  ℕ, zero, suc, ◌+◌, ◌-◌, ◌*◌, ◌/◌, ◌%◌, ◌^◌, ◌≤◌, ◌<◌, ◌≡◌, refl, sym, ap, ◌∙◌, ◌≢◌, ◌↔◌, ◌⊎◌, inl,
  inr, Bool, true, false, not, ◌&&◌, ◌||◌, Option, none, some, List, [], ◌∷◌, ◌++◌, map, arith, leb,
  ltb, ◌==◌, if◌then◌else◌, length, take, drop, get_or, get_elem?, set, ℤ, pos, negsuc, ltb_ℤ,
  pos_part, neg_part, sub_ℕ, ◌+ℤ◌, ◌≤ℤ◌, ◌<ℤ◌, ◌>>=◌, Bool-cases, Option-cases, length-append,
  length-set, replicate, ltb→lt, lt→ltb,
}
use khazar_os.CString.{
  Bytes, lit, str_eq, strncpy, has_prefix, strstr, is_some, contains, strchr, tolower, isspace,
  skip_spaces,
}
use mathlib.Core.Option
use khazar_os.CString.Lines.{whole_lines, atoi}
use khazar_os.Settings.{ConfigFile, no_path, not_opened, contents, load_lines, is_true}

pub record Config : Type 0 where
  pub socket_path : Bytes
  pub max_connections : ℤ
  pub request_timeout_ms : ℤ
  pub enable_cache : Bool
  pub enable_regex : Bool
  pub enable_tokens : Bool
  pub enable_intent_table : Bool
  pub enable_alias : Bool
  pub enable_fuzzy : Bool
  pub daemonize : Bool
  pub pid_file : Bytes
  pub log_file : Bytes
  pub rules_dir : Bytes
  pub log_level : ℤ
  pub cache_cleanup_interval : ℤ
  pub fuzzy_threshold : Bytes
  pub cache_confidence_threshold : Bytes
  pub regex_confidence_threshold : Bytes
  pub token_confidence_threshold : Bytes
  pub intent_confidence_threshold : Bytes
  pub alias_confidence_threshold : Bytes

abbrev pub config_set_defaults : Config
config_set_defaults = record {
  socket_path = lit "/run/ai-rule-engine.sock";
  max_connections = pos 256;
  request_timeout_ms = pos 3000;
  enable_cache = true;
  enable_regex = true;
  enable_tokens = true;
  enable_intent_table = true;
  enable_alias = true;
  enable_fuzzy = true;
  daemonize = false;
  pid_file = lit "/run/ai-rule-engine.pid";
  log_file = [];
  rules_dir = [];
  log_level = pos 2;
  cache_cleanup_interval = pos 300;
  fuzzy_threshold = lit "0.70";
  cache_confidence_threshold = lit "0.99";
  regex_confidence_threshold = lit "0.85";
  token_confidence_threshold = lit "0.50";
  intent_confidence_threshold = lit "0.99";
  alias_confidence_threshold = lit "0.75";
}

-- The chain of comparisons.
abbrev pub setters : List (Bytes × (Bytes → Config → Config))
setters =
    (lit "socket_path", λ v c. record c { socket_path = strncpy 255 v })
    ∷ (lit "max_connections", λ v c. record c { max_connections = atoi v })
    ∷ (lit "request_timeout_ms", λ v c. record c { request_timeout_ms = atoi v })
    ∷ (lit "enable_cache", λ v c. record c { enable_cache = is_true v })
    ∷ (lit "enable_regex", λ v c. record c { enable_regex = is_true v })
    ∷ (lit "enable_tokens", λ v c. record c { enable_tokens = is_true v })
    ∷ (lit "enable_intent_table", λ v c. record c { enable_intent_table = is_true v })
    ∷ (lit "enable_alias", λ v c. record c { enable_alias = is_true v })
    ∷ (lit "enable_fuzzy", λ v c. record c { enable_fuzzy = is_true v })
    ∷ (lit "daemonize", λ v c. record c { daemonize = is_true v })
    ∷ (lit "pid_file", λ v c. record c { pid_file = strncpy 255 v })
    ∷ (lit "log_file", λ v c. record c { log_file = strncpy 255 v })
    ∷ (lit "rules_dir", λ v c. record c { rules_dir = strncpy 255 v })
    ∷ (lit "log_level", λ v c. record c { log_level = atoi v })
    ∷ (lit "cache_cleanup_interval", λ v c. record c { cache_cleanup_interval = atoi v })
    ∷ (lit "fuzzy_threshold", λ v c. record c { fuzzy_threshold = v })
    ∷ (lit "cache_confidence_threshold", λ v c. record c { cache_confidence_threshold = v })
    ∷ (lit "regex_confidence_threshold", λ v c. record c { regex_confidence_threshold = v })
    ∷ (lit "token_confidence_threshold", λ v c. record c { token_confidence_threshold = v })
    ∷ (lit "intent_confidence_threshold", λ v c. record c { intent_confidence_threshold = v })
    ∷ (lit "alias_confidence_threshold", λ v c. record c { alias_confidence_threshold = v })
    ∷ []

unfoldable pub all_white : Bytes → Bool
unfolding isspace
all_white [] = true
all_white (c ∷ s) = isspace c && all_white s

-- The text up to its last byte that is no white space.
unfoldable pub trim_right : Bytes → Bytes
unfolding all_white
trim_right [] = []
trim_right (c ∷ s) = let rest = trim_right s in if all_white (c ∷ s) then [] else c ∷ rest

-- `str` is the function's own variable, so the white space in front stays; a text of nothing but white space
-- stays as it is.
unfoldable pub trim_whitespace : Bytes → Bytes
unfolding all_white trim_right
trim_whitespace s = if all_white s then s else trim_right s

-- What stands in front of the last quote, or the whole text where there is none.
unfoldable pub up_to_quote : Bytes → Bytes
unfolding strchr is_some
up_to_quote [] = []
up_to_quote (c ∷ s) =
    let rest = up_to_quote s in if c == b'"' && not (is_some (strchr s b'"')) then [] else c ∷ rest

-- if (value[0] == '"')
unfoldable pub unquoted : Bytes → Bytes
unfolding up_to_quote
unquoted [] = []
unquoted (c ∷ s) = if c == b'"' then up_to_quote s else c ∷ s

-- The part in front of the first '=' and the part behind it.
unfoldable pub split_pair : Bytes → Option (Bytes × Bytes)
split_pair [] = none
split_pair (c ∷ s) =
    let rest : Option (Bytes × Bytes) = Option.map (λ kv. (c ∷ kv.0, kv.1)) (split_pair s) in
    if c == b'=' then some ([], s) else rest

-- From the line without the white space behind it.
unfoldable pub trimmed_pair : Bytes → Option (Bytes × Bytes)
unfolding split_pair trim_whitespace unquoted
trimmed_pair [] = none
trimmed_pair (c ∷ line) =
    let pair : Option (Bytes × Bytes) =
      Option.map
        (λ kv. (trim_whitespace (strncpy 255 kv.0), unquoted (trim_whitespace (strncpy 255 kv.1))))
        (split_pair (c ∷ line)) in
    if c == b'#' || c == b'[' then none else pair

unfoldable pub pair_of : Bytes → Option (Bytes × Bytes)
unfolding trimmed_pair trim_whitespace
pair_of line = trimmed_pair (trim_whitespace line)

-- The configuration; every call returns 0.
unfoldable pub config_load : ConfigFile → Config
unfolding load_lines pair_of whole_lines
config_load no_path = config_set_defaults
config_load not_opened = config_set_defaults
config_load (contents file) = load_lines pair_of setters (whole_lines 511 file) config_set_defaults
