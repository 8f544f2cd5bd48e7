-- ===== src/PolicyEngine/Tests/Config.antt =====
-- The configuration of the policy engine from a concrete file.
use khazar_os.Common.{◌≡◌, refl, pos}
use khazar_os.CString.{Bytes, lit, str_eq}
use khazar_os.CString.Lines.{atoi}
use khazar_os.PolicyEngine.Config.{config_load}
use khazar_os.PolicyEngine.Config.Loaded.{LastWins, loaded, config_load-last}

abbrev file : Bytes
file = lit "# policy\nlog_level = 1\nmax_connections=8\npolicy_dir = \"/etc/rules\"\nlog_level=4\n"

config_load-last_example : LastWins file
config_load-last_example = config_load-last file

log_level_test : (loaded file).log_level ≡ pos 4
unfolding config_load str_eq atoi
log_level_test = refl

policy_dir_test : (loaded file).policy_dir ≡ lit "/etc/rules"
unfolding config_load str_eq
policy_dir_test = refl
