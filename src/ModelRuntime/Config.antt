-- ===== src/ModelRuntime/Config.antt =====
-- The model runtime's configuration: khazar/components/model-runtime/config/config.c. A floating-point
-- setting is the text whose value it has.
use khazar_os.Common.{Bool, true, false, Option, none, List, [], ◌∷◌, ◌==◌, if◌then◌else◌, ℤ, pos}
use khazar_os.CString.{Bytes, lit, strncpy, skip_spaces}
use mathlib.Core.Option
use khazar_os.CString.Lines.{lines, scan_pair, unquote, atoi}
use khazar_os.Settings.{ConfigFile, no_path, not_opened, contents, load_lines, is_true}

pub record Config : Type 0 where
  pub socket_path : Bytes
  pub max_connections : ℤ
  pub model_path : Bytes
  pub context_size : ℤ
  pub default_max_tokens : ℤ
  pub default_temperature : Bytes
  pub default_top_p : Bytes
  pub num_threads : ℤ
  pub log_level : ℤ
  pub daemonize : Bool
  pub backend : Bytes

abbrev pub config_set_defaults : Config
config_set_defaults = record {
  socket_path = lit "/run/ai-model-runtime.sock";
  max_connections = pos 16;
  model_path = lit "/usr/share/ai-models/default.gguf";
  context_size = pos 2048;
  default_max_tokens = pos 256;
  default_temperature = lit "0.7";
  default_top_p = lit "0.9";
  num_threads = pos 4;
  log_level = pos 2;
  daemonize = false;
  backend = lit "mock";
}

-- The chain of comparisons.
abbrev pub setters : List (Bytes × (Bytes → Config → Config))
setters =
    (lit "socket_path", λ v c. record c { socket_path = strncpy 255 v })
    ∷ (lit "max_connections", λ v c. record c { max_connections = atoi v })
    ∷ (lit "model_path", λ v c. record c { model_path = strncpy 511 v })
    ∷ (lit "context_size", λ v c. record c { context_size = atoi v })
    ∷ (lit "default_max_tokens", λ v c. record c { default_max_tokens = atoi v })
    ∷ (lit "default_temperature", λ v c. record c { default_temperature = v })
    ∷ (lit "default_top_p", λ v c. record c { default_top_p = v })
    ∷ (lit "num_threads", λ v c. record c { num_threads = atoi v })
    ∷ (lit "log_level", λ v c. record c { log_level = atoi v })
    ∷ (lit "daemonize", λ v c. record c { daemonize = is_true v })
    ∷ (lit "backend", λ v c. record c { backend = strncpy 31 v })
    ∷ []

-- The key and the value of a line, unless it is empty, a comment, or `sscanf` does not convert both; blanks
-- behind the key stay.
unfoldable pub pair_of : Bytes → Option (Bytes × Bytes)
unfolding scan_pair skip_spaces unquote
pair_of [] = none
pair_of (c ∷ line) =
    let pair : Option (Bytes × Bytes) =
      Option.map (λ kv. (skip_spaces kv.0, unquote kv.1)) (scan_pair (c ∷ line)) in
    if c == b'#' then none else pair

-- The configuration, and whether the call returns 0.
unfoldable pub config_load : ConfigFile → Config × Bool
unfolding load_lines pair_of lines
config_load no_path = (config_set_defaults, true)
config_load not_opened = (config_set_defaults, false)
config_load (contents file) =
    (load_lines pair_of setters (lines 511 file) config_set_defaults, true)
