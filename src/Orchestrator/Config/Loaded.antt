-- ===== src/Orchestrator/Config/Loaded.antt =====
-- What the configuration of the orchestrator holds after a file was read.
use khazar_os.Common.{◌≡◌, refl, true, Option, some}
use khazar_os.CString.{Bytes, lit, str_eq}
use khazar_os.Common.{All}
use khazar_os.CString.Lines.{whole_lines, atoi}
use khazar_os.Settings.{contents, is_true, or_keep}
use khazar_os.Settings.Last.{has_key, Row, last_set, load_lines-get, load_lines-Keeps}
use khazar_os.Orchestrator.Config.{
  Config, config_set_defaults, setters, quoted_value, level_of, pair_of, config_load,
}

module _ (file : Bytes) where
  abbrev pub loaded : Config
  loaded = config_load (contents file)

  -- The value of the last line of the file with that key that gives one, or else the default.
  abbrev pub last : {V : Type 0} → Bytes → (Bytes → Option V) → V → V
  last k val default = last_set pair_of k val (whole_lines 511 file) default

  loaded-last :
      {V : Type 0} (get : Config → V) (k : Bytes) (val : Bytes → Option V)
      → All (Row get k val) setters
      → has_key setters k ≡ true
      → get loaded ≡ last k val (get config_set_defaults)
  unfolding config_load
  loaded-last get k val rows h =
      load_lines-get get k val pair_of setters rows h (whole_lines 511 file) config_set_defaults

  loaded-socket : loaded.classifier_socket ≡ config_set_defaults.classifier_socket
  unfolding config_load
  loaded-socket =
      load_lines-Keeps (λ c. c.classifier_socket) pair_of setters
        (
          λ v c. refl,
          (
            λ v c. refl,
            (
              λ v c. refl,
              (λ v c. refl, (λ v c. refl, (λ v c. refl, (λ v c. refl, (λ v c. refl, tt))))),
            ),
          ),
        )
        (whole_lines 511 file) config_set_defaults

  -- The value of each setting.
  abbrev pub LastWins : Type 0
  LastWins =
      (loaded.classifier_socket ≡ config_set_defaults.classifier_socket)
      × (loaded.socket_path ≡ last (lit "socket_path") quoted_value config_set_defaults.socket_path)
      × (loaded.max_connections
          ≡ last (lit "max_connections") (λ v. some (atoi v)) config_set_defaults.max_connections)
      × (loaded.request_timeout_ms
          ≡ last (lit "request_timeout_ms") (λ v. some (atoi v))
              config_set_defaults.request_timeout_ms)
      × (loaded.enable_metrics
          ≡ last (lit "enable_metrics") (λ v. some (is_true v)) config_set_defaults.enable_metrics)
      × (loaded.log_level ≡ last (lit "log_level") level_of config_set_defaults.log_level)
      × (loaded.log_file ≡ last (lit "log_file") quoted_value config_set_defaults.log_file)
      × (loaded.rule_engine_socket
          ≡ last (lit "rule_engine_socket") quoted_value config_set_defaults.rule_engine_socket)
      × (loaded.policy_engine_socket
          ≡ last (lit "policy_engine_socket") quoted_value config_set_defaults.policy_engine_socket)

  -- Each of eight settings has the value of the last line of the file with its key that gives one (a text
  -- in quotes, a level by its name), and its default where there is no such line; the socket of the intent
  -- classifier stays the default, whatever the file holds.
  pub config_load-sets : LastWins
  unfolding str_eq or_keep
  config_load-sets = (
    loaded-socket,
    loaded-last (λ c. c.socket_path) (lit "socket_path") quoted_value
        (
          λ v c. refl,
          (
            λ v c. refl,
            (
              λ v c. refl,
              (λ v c. refl, (λ v c. refl, (λ v c. refl, (λ v c. refl, (λ v c. refl, tt))))),
            ),
          ),
        )
        refl,
    loaded-last (λ c. c.max_connections) (lit "max_connections") (λ v. some (atoi v))
        (
          λ v c. refl,
          (
            λ v c. refl,
            (
              λ v c. refl,
              (λ v c. refl, (λ v c. refl, (λ v c. refl, (λ v c. refl, (λ v c. refl, tt))))),
            ),
          ),
        )
        refl,
    loaded-last (λ c. c.request_timeout_ms) (lit "request_timeout_ms") (λ v. some (atoi v))
        (
          λ v c. refl,
          (
            λ v c. refl,
            (
              λ v c. refl,
              (λ v c. refl, (λ v c. refl, (λ v c. refl, (λ v c. refl, (λ v c. refl, tt))))),
            ),
          ),
        )
        refl,
    loaded-last (λ c. c.enable_metrics) (lit "enable_metrics") (λ v. some (is_true v))
        (
          λ v c. refl,
          (
            λ v c. refl,
            (
              λ v c. refl,
              (λ v c. refl, (λ v c. refl, (λ v c. refl, (λ v c. refl, (λ v c. refl, tt))))),
            ),
          ),
        )
        refl,
    loaded-last (λ c. c.log_level) (lit "log_level") level_of
        (
          λ v c. refl,
          (
            λ v c. refl,
            (
              λ v c. refl,
              (λ v c. refl, (λ v c. refl, (λ v c. refl, (λ v c. refl, (λ v c. refl, tt))))),
            ),
          ),
        )
        refl,
    loaded-last (λ c. c.log_file) (lit "log_file") quoted_value
        (
          λ v c. refl,
          (
            λ v c. refl,
            (
              λ v c. refl,
              (λ v c. refl, (λ v c. refl, (λ v c. refl, (λ v c. refl, (λ v c. refl, tt))))),
            ),
          ),
        )
        refl,
    loaded-last (λ c. c.rule_engine_socket) (lit "rule_engine_socket") quoted_value
        (
          λ v c. refl,
          (
            λ v c. refl,
            (
              λ v c. refl,
              (λ v c. refl, (λ v c. refl, (λ v c. refl, (λ v c. refl, (λ v c. refl, tt))))),
            ),
          ),
        )
        refl,
    loaded-last (λ c. c.policy_engine_socket) (lit "policy_engine_socket") quoted_value
        (
          λ v c. refl,
          (
            λ v c. refl,
            (
              λ v c. refl,
              (λ v c. refl, (λ v c. refl, (λ v c. refl, (λ v c. refl, (λ v c. refl, tt))))),
            ),
          ),
        )
        refl,
  )
