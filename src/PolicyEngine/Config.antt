-- ===== src/PolicyEngine/Config.antt =====
-- The policy engine's configuration: khazar/components/policy-engine/config/config.c.
pub mod Loaded
use mathlib.Core.Option
use khazar_os.Common.{
  ℕ, zero, suc, ◌+◌, ◌-◌, ◌*◌, ◌/◌, ◌%◌, ◌^◌, ◌≤◌, ◌<◌, ◌≡◌, refl, sym, ap, ◌∙◌, ◌≢◌, ◌↔◌, ◌⊎◌, inl,
  inr, Bool, true, false, not, ◌&&◌, ◌||◌, Option, none, some, List, [], ◌∷◌, ◌++◌, map, arith, leb,
  ltb, ◌==◌, if◌then◌else◌, length, take, drop, get_or, get_elem?, set, ℤ, pos, negsuc, ltb_ℤ,
  pos_part, neg_part, sub_ℕ, ◌+ℤ◌, ◌≤ℤ◌, ◌<ℤ◌, ◌>>=◌, Bool-cases, Option-cases, length-append,
  length-set, replicate, ltb→lt, lt→ltb,
}
use khazar_os.CString.{
  Bytes, lit, str_eq, strncpy, has_prefix, strstr, is_some, contains, strchr, tolower, isspace,
  skip_spaces,
}
use khazar_os.CString.Lines.{lines, scan_pair, trim_key, unquote, atoi}
use khazar_os.Settings.{ConfigFile, no_path, not_opened, contents, load_lines, is_true}

pub record Config : Type 0 where
  pub socket_path : Bytes
  pub max_connections : ℤ
  pub policy_dir : Bytes
  pub log_level : ℤ
  pub daemonize : Bool

abbrev pub config_set_defaults : Config
config_set_defaults = record {
  socket_path = lit "/run/ai-policy-engine.sock";
  max_connections = pos 64;
  policy_dir = lit "/etc/ai-policy-engine/rules";
  log_level = pos 2;
  daemonize = false;
}

-- The chain of comparisons.
abbrev pub setters : List (Bytes × (Bytes → Config → Config))
setters =
    (lit "socket_path", λ v c. record c { socket_path = strncpy 255 v })
    ∷ (lit "max_connections", λ v c. record c { max_connections = atoi v })
    ∷ (lit "policy_dir", λ v c. record c { policy_dir = strncpy 511 v })
    ∷ (lit "log_level", λ v c. record c { log_level = atoi v })
    ∷ (lit "daemonize", λ v c. record c { daemonize = is_true v })
    ∷ []

-- The key and the value of a line, unless it is empty, a comment, or `sscanf` does not convert both.
unfoldable pub pair_of : Bytes → Option (Bytes × Bytes)
unfolding scan_pair trim_key unquote
pair_of [] = none
pair_of (c ∷ line) =
    let pair : Option (Bytes × Bytes) =
      Option.map (λ kv. (trim_key kv.0, unquote kv.1)) (scan_pair (c ∷ line)) in
    if c == b'#' then none else pair

-- The configuration, and whether the call returns 0.
unfoldable pub config_load : ConfigFile → Config × Bool
unfolding load_lines pair_of lines
config_load no_path = (config_set_defaults, true)
config_load not_opened = (config_set_defaults, false)
config_load (contents file) =
    (load_lines pair_of setters (lines 511 file) config_set_defaults, true)
