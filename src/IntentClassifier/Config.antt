-- ===== src/IntentClassifier/Config.antt =====
-- The intent classifier's configuration: khazar/components/intent-classifier/config/config.c.
use khazar_os.Common.{Bool, true, false, Option, none, List, [], ◌∷◌, ◌==◌, if◌then◌else◌, ℤ, pos}
use khazar_os.CString.{Bytes, lit, strncpy, skip_spaces}
use mathlib.Core.Option
use khazar_os.CString.Lines.{lines, scan_pair, unquote, atoi}
use khazar_os.Settings.{ConfigFile, no_path, not_opened, contents, load_lines, is_true}

pub record Config : Type 0 where
  pub socket_path : Bytes
  pub model_runtime_socket : Bytes
  pub max_connections : ℤ
  pub log_level : ℤ
  pub daemonize : Bool
  pub fallback_to_local : Bool

abbrev pub config_set_defaults : Config
config_set_defaults = record {
  socket_path = lit "/run/ai-intent-classifier.sock";
  model_runtime_socket = lit "/run/ai-model-runtime.sock";
  max_connections = pos 16;
  log_level = pos 2;
  daemonize = false;
  fallback_to_local = true;
}

-- The chain of comparisons.
abbrev pub setters : List (Bytes × (Bytes → Config → Config))
setters =
    (lit "socket_path", λ v c. record c { socket_path = strncpy 255 v })
    ∷ (lit "model_runtime_socket", λ v c. record c { model_runtime_socket = strncpy 255 v })
    ∷ (lit "max_connections", λ v c. record c { max_connections = atoi v })
    ∷ (lit "log_level", λ v c. record c { log_level = atoi v })
    ∷ (lit "daemonize", λ v c. record c { daemonize = is_true v })
    ∷ (lit "fallback_to_local", λ v c. record c { fallback_to_local = is_true v })
    ∷ []

-- The key and the value of a line, unless it is empty, a comment, or `sscanf` does not convert both; blanks
-- behind the key stay.
unfoldable pub pair_of : Bytes → Option (Bytes × Bytes)
unfolding scan_pair skip_spaces unquote
pair_of [] = none
pair_of (c ∷ line) =
    let pair : Option (Bytes × Bytes) =
      Option.map (λ kv. (skip_spaces kv.0, unquote kv.1)) (scan_pair (c ∷ line)) in
    if c == b'#' then none else pair

-- The configuration, and whether the call returns 0.
unfoldable pub config_load : ConfigFile → Config × Bool
unfolding load_lines pair_of lines
config_load no_path = (config_set_defaults, true)
config_load not_opened = (config_set_defaults, false)
config_load (contents file) =
    (load_lines pair_of setters (lines 511 file) config_set_defaults, true)
