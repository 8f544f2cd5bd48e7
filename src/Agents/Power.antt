-- ===== src/Agents/Power.antt =====
-- The power agent: khazar/agents/power-agent/main.c, what it does with one message. `system` is a
-- parameter: how the command ends.
pub mod Commands
use khazar_os.Common.{
  ℕ, zero, suc, ◌+◌, ◌-◌, ◌*◌, ◌/◌, ◌%◌, ◌^◌, ◌≤◌, ◌<◌, ◌≡◌, refl, sym, ap, ◌∙◌, ◌≢◌, ◌↔◌, ◌⊎◌, inl,
  inr, Bool, true, false, not, ◌&&◌, ◌||◌, Option, none, some, List, [], ◌∷◌, ◌++◌, map, arith, leb,
  ltb, ◌==◌, if◌then◌else◌, length, take, drop, get_or, get_elem?, set, ℤ, pos, negsuc, ltb_ℤ,
  pos_part, neg_part, sub_ℕ, ◌+ℤ◌, ◌≤ℤ◌, ◌<ℤ◌, ◌>>=◌, Bool-cases, Option-cases, length-append,
  length-set, replicate, ltb→lt, lt→ltb,
}
use khazar_os.CString.{
  Bytes, lit, str_eq, strncpy, has_prefix, strstr, is_some, contains, strchr, tolower, isspace,
  skip_spaces,
}
use khazar_os.Agents.PackageManager.{Ran, run_command}
use khazar_os.Agents.Daemon
use khazar_os.Agents.Daemon.{Identity, Link, Turn}
use khazar_os.Agents.Task.{Done, unknown_command, any_word, report, answer}

abbrev pub shutdown_words : List Bytes
shutdown_words = lit "shutdown" ∷ lit "kapat" ∷ lit "sondur" ∷ lit "söndür" ∷ []

abbrev pub reboot_words : List Bytes
reboot_words = lit "reboot" ∷ lit "yeniden" ∷ lit "başlat" ∷ []

abbrev pub suspend_words : List Bytes
suspend_words = lit "suspend" ∷ lit "uyku" ∷ lit "askıda" ∷ []

abbrev pub hibernate_words : List Bytes
hibernate_words = lit "hibernate" ∷ lit "hazırda" ∷ lit "hazırda beklet" ∷ []

abbrev pub lock_words : List Bytes
lock_words = lit "lock" ∷ lit "kilitle" ∷ lit "ekranı kilitle" ∷ []

abbrev pub logout_words : List Bytes
logout_words = lit "logout" ∷ lit "cik" ∷ lit "çık" ∷ lit "oturumu kapat" ∷ []

-- From the query to the reply's parts.
unfoldable pub carry_out : (Bytes → Ran) → Bytes → Done
unfolding any_word report run_command
carry_out system query =
    let run : Bytes → Bytes → Bytes → Done =
      λ cmd done failed. report done failed (some cmd, run_command (system cmd)) in
    if any_word shutdown_words query
    then (if contains query (lit "wifi")
        then unknown_command
        else run (lit "systemctl poweroff") (lit "shutdown initiated") (lit "shutdown failed"))
    else if any_word reboot_words query
    then run (lit "systemctl reboot") (lit "reboot initiated") (lit "reboot failed")
    else if any_word suspend_words query
    then run (lit "systemctl suspend") (lit "suspend initiated") (lit "suspend failed")
    else if any_word hibernate_words query
    then run (lit "systemctl hibernate") (lit "hibernate initiated") (lit "hibernate failed")
    else if any_word lock_words query
    then run (lit "loginctl lock-session") (lit "session locked") (lit "lock failed")
    else if any_word logout_words query
    then run (lit "loginctl terminate-session") (lit "logout initiated") (lit "logout failed")
    else unknown_command

-- The bytes sent, and the command that was run.
unfoldable pub handle_client : (Bytes → Ran) → Bytes → Bytes × Option Bytes
unfolding carry_out answer
handle_client system = answer (carry_out system)

abbrev pub identity : Identity
identity = record {
  name = lit "power-agent";
  version = lit "0.1.0";
  socket = lit "/run/ai-power-agent.sock";
  capabilities = lit "system_management" ∷ [];
}

-- A round of the main loop.
unfoldable pub main_round :
    (Bytes → Ran) → Link → Turn → Link × Option (Bytes × Option Bytes) × List Bytes
unfolding handle_client
main_round system = Daemon.main_round (handle_client system) identity
