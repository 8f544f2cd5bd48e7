-- ===== src/Agents/Network.antt =====
-- The network agent: khazar/agents/network-agent/main.c, what it does with one message. `system` is a
-- parameter: how the command ends.
pub mod Commands
use khazar_os.Common.{
  ℕ, zero, suc, ◌+◌, ◌-◌, ◌*◌, ◌/◌, ◌%◌, ◌^◌, ◌≤◌, ◌<◌, ◌≡◌, refl, sym, ap, ◌∙◌, ◌≢◌, ◌↔◌, ◌⊎◌, inl,
  inr, Bool, true, false, not, ◌&&◌, ◌||◌, Option, none, some, List, [], ◌∷◌, ◌++◌, map, arith, leb,
  ltb, ◌==◌, if◌then◌else◌, length, take, drop, get_or, get_elem?, set, ℤ, pos, negsuc, ltb_ℤ,
  pos_part, neg_part, sub_ℕ, ◌+ℤ◌, ◌≤ℤ◌, ◌<ℤ◌, ◌>>=◌, Bool-cases, Option-cases, length-append,
  length-set, replicate, ltb→lt, lt→ltb,
}
use khazar_os.CString.{
  Bytes, lit, str_eq, strncpy, has_prefix, strstr, is_some, contains, strchr, tolower, isspace,
  skip_spaces,
}
use khazar_os.Agents.PackageManager.{Ran, run_option}
use khazar_os.Agents.Daemon
use khazar_os.Agents.Daemon.{Identity, Link, Turn}
use khazar_os.Agents.Task.{
  Done, unknown_command, any_word, behind_word, trim_blanks, report, answer,
}

-- snprintf(cmd, sizeof(cmd), "nmcli device wifi connect \"%s\"", target), unless there is no target
unfoldable pub connect_cmd : Bytes → Option Bytes
connect_cmd [] = none
connect_cmd (c ∷ target) =
    some (strncpy 2047 (lit "nmcli device wifi connect \"" ++ ((c ∷ target) ++ lit "\"")))

-- The command of an action, `none` where `execute_action` returns -1 before it runs one. No target is the
-- empty one.
unfoldable pub command_for : Bytes → Bytes → Option Bytes
unfolding connect_cmd
command_for action target =
    if str_eq action (lit "wifi_enable")
    then some (lit "nmcli radio wifi on")
    else if str_eq action (lit "wifi_disable")
    then some (lit "nmcli radio wifi off")
    else if str_eq action (lit "status")
    then some (lit "nmcli device status")
    else if str_eq action (lit "connect")
    then connect_cmd target
    else none

-- The command that was run, and the value returned.
unfoldable pub execute_action : (Bytes → Ran) → Bytes → Bytes → Option Bytes × ℤ
unfolding command_for run_option
execute_action system action target = run_option system (command_for action target)

abbrev pub enable_words : List Bytes
enable_words = lit "open" ∷ lit "ac" ∷ lit "aç" ∷ lit "enable" ∷ lit "etkinle" ∷ []

abbrev pub disable_words : List Bytes
disable_words = lit "close" ∷ lit "kapat" ∷ lit "disable" ∷ lit "devre di" ∷ []

abbrev pub status_words : List Bytes
status_words = lit "status" ∷ lit "durum" ∷ []

abbrev pub connect_words : List Bytes
connect_words = lit "connect" ∷ lit "baglan" ∷ lit "bağlan" ∷ []

-- What stands behind the first keyword that occurs, without the blanks around it.
unfoldable pub ssid_of : Bytes → Bytes
unfolding behind_word trim_blanks
ssid_of query = trim_blanks (behind_word connect_words query)

unfoldable pub on_connect : (Bytes → Ran) → Bytes → Done
unfolding execute_action report
on_connect system [] = unknown_command
on_connect system (c ∷ ssid) =
    report (lit "connected to " ++ (c ∷ ssid)) (lit "failed to connect to " ++ (c ∷ ssid))
      (execute_action system (lit "connect") (c ∷ ssid))

-- The result of the command is not looked at.
unfoldable pub on_status : (Bytes → Ran) → Done
unfolding execute_action
on_status system = record {
  success = true;
  message = lit "network status queried";
  command = (execute_action system (lit "status") []).0;
}

-- From the query to the reply's parts.
unfoldable pub carry_out : (Bytes → Ran) → Bytes → Done
unfolding any_word execute_action report ssid_of on_connect on_status
carry_out system query =
    if contains query (lit "wifi") && any_word enable_words query
    then report (lit "wifi enabled") (lit "failed to enable wifi")
        (execute_action system (lit "wifi_enable") [])
    else if contains query (lit "wifi") && any_word disable_words query
    then report (lit "wifi disabled") (lit "failed to disable wifi")
        (execute_action system (lit "wifi_disable") [])
    else if any_word status_words query
    then on_status system
    else if any_word connect_words query
    then on_connect system (ssid_of query)
    else unknown_command

-- The bytes sent, and the command that was run.
unfoldable pub handle_client : (Bytes → Ran) → Bytes → Bytes × Option Bytes
unfolding carry_out answer
handle_client system = answer (carry_out system)

abbrev pub identity : Identity
identity = record {
  name = lit "network-agent";
  version = lit "0.1.0";
  socket = lit "/run/ai-network-agent.sock";
  capabilities = lit "network_management" ∷ [];
}

-- A round of the main loop.
unfoldable pub main_round :
    (Bytes → Ran) → Link → Turn → Link × Option (Bytes × Option Bytes) × List Bytes
unfolding handle_client
main_round system = Daemon.main_round (handle_client system) identity
