-- ===== src/Orchestrator/Tests/Config.antt =====
-- The configuration of the orchestrator from a concrete file.
use khazar_os.Common.{◌≡◌, refl}
use khazar_os.CString.{Bytes, lit, str_eq}
use khazar_os.Orchestrator.Config.{quoted_value, level_of}
use khazar_os.Orchestrator.Config.Loaded.{LastWins, loaded, config_load-sets}
use khazar_os.Orchestrator.Config.{config_load}
use khazar_os.Settings.{or_keep}

abbrev file : Bytes
file =
    lit
      "socket_path=\"/run/o.sock\"\nlog_level=2\nlog_level = WARN \nclassifier_socket=\"/run/c.sock\"\n"

config_load-sets_example : LastWins file
config_load-sets_example = config_load-sets file

socket_path_test : (loaded file).socket_path ≡ lit "/run/o.sock"
unfolding config_load str_eq or_keep quoted_value
socket_path_test = refl

-- A level is read by its name only.
log_level_test : (loaded file).log_level ≡ 3
unfolding config_load str_eq or_keep level_of
log_level_test = refl
