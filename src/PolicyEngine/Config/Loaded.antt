-- ===== src/PolicyEngine/Config/Loaded.antt =====
-- What the configuration of the policy engine holds after a file was read.
use khazar_os.Common.{◌≡◌, refl, true, Option, some}
use khazar_os.CString.{Bytes, lit, str_eq, strncpy}
use khazar_os.Common.{All}
use khazar_os.CString.Lines.{lines, atoi}
use khazar_os.Settings.{contents, is_true, or_keep}
use khazar_os.Settings.Last.{has_key, Row, last_set, load_lines-get}
use khazar_os.PolicyEngine.Config.{Config, config_set_defaults, setters, pair_of, config_load}

module _ (file : Bytes) where
  abbrev pub loaded : Config
  loaded = (config_load (contents file)).0

  -- The value of the last line of the file with that key, or else the default.
  abbrev pub last : {V : Type 0} → Bytes → (Bytes → Option V) → V → V
  last k val default = last_set pair_of k val (lines 511 file) default

  loaded-last :
      {V : Type 0} (get : Config → V) (k : Bytes) (val : Bytes → Option V)
      → All (Row get k val) setters
      → has_key setters k ≡ true
      → get loaded ≡ last k val (get config_set_defaults)
  unfolding config_load
  loaded-last get k val rows h =
      load_lines-get get k val pair_of setters rows h (lines 511 file) config_set_defaults

  -- The value of each setting.
  abbrev pub LastWins : Type 0
  LastWins =
      (loaded.socket_path
        ≡ last (lit "socket_path") (λ v. some (strncpy 255 v)) config_set_defaults.socket_path)
      × (loaded.max_connections
          ≡ last (lit "max_connections") (λ v. some (atoi v)) config_set_defaults.max_connections)
      × (loaded.policy_dir
          ≡ last (lit "policy_dir") (λ v. some (strncpy 511 v)) config_set_defaults.policy_dir)
      × (loaded.log_level
          ≡ last (lit "log_level") (λ v. some (atoi v)) config_set_defaults.log_level)
      × (loaded.daemonize
          ≡ last (lit "daemonize") (λ v. some (is_true v)) config_set_defaults.daemonize)

  -- Each setting has the value of the last line of the file with its key, and its default where there is no
  -- such line, whatever stands on the other lines.
  pub config_load-last : LastWins
  unfolding or_keep str_eq
  config_load-last = (
    loaded-last (λ c. c.socket_path) (lit "socket_path") (λ v. some (strncpy 255 v))
        (λ v c. refl, (λ v c. refl, (λ v c. refl, (λ v c. refl, (λ v c. refl, tt))))) refl,
    loaded-last (λ c. c.max_connections) (lit "max_connections") (λ v. some (atoi v))
        (λ v c. refl, (λ v c. refl, (λ v c. refl, (λ v c. refl, (λ v c. refl, tt))))) refl,
    loaded-last (λ c. c.policy_dir) (lit "policy_dir") (λ v. some (strncpy 511 v))
        (λ v c. refl, (λ v c. refl, (λ v c. refl, (λ v c. refl, (λ v c. refl, tt))))) refl,
    loaded-last (λ c. c.log_level) (lit "log_level") (λ v. some (atoi v))
        (λ v c. refl, (λ v c. refl, (λ v c. refl, (λ v c. refl, (λ v c. refl, tt))))) refl,
    loaded-last (λ c. c.daemonize) (lit "daemonize") (λ v. some (is_true v))
        (λ v c. refl, (λ v c. refl, (λ v c. refl, (λ v c. refl, (λ v c. refl, tt))))) refl,
  )
