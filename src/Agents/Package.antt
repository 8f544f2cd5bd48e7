-- ===== src/Agents/Package.antt =====
-- The package agent: khazar/agents/package-agent/main.c, what it does with one message. `system` is a
-- parameter: how the command ends.
pub mod Commands
pub mod Uninstall
use khazar_os.Common.{
  ℕ, zero, suc, ◌+◌, ◌-◌, ◌*◌, ◌/◌, ◌%◌, ◌^◌, ◌≤◌, ◌<◌, ◌≡◌, refl, sym, ap, ◌∙◌, ◌≢◌, ◌↔◌, ◌⊎◌, inl,
  inr, Bool, true, false, not, ◌&&◌, ◌||◌, Option, none, some, List, [], ◌∷◌, ◌++◌, map, arith, leb,
  ltb, ◌==◌, if◌then◌else◌, length, take, drop, get_or, get_elem?, set, ℤ, pos, negsuc, ltb_ℤ,
  pos_part, neg_part, sub_ℕ, ◌+ℤ◌, ◌≤ℤ◌, ◌<ℤ◌, ◌>>=◌, Bool-cases, Option-cases, length-append,
  length-set, replicate, ltb→lt, lt→ltb,
}
use khazar_os.CString.{
  Bytes, lit, str_eq, strncpy, has_prefix, strstr, is_some, contains, strchr, tolower, isspace,
  skip_spaces,
}
use khazar_os.CString.Lines.{span_not, strtoull, decimal, all_spaces}
use khazar_os.Agents.Daemon
use khazar_os.Agents.Daemon.{Identity, Link, Turn}
use khazar_os.Agents.Task.{
  Done, answer, any_word, behind_word, extract_str, id_text, is_zero, parse_id, query_of, reply,
  report, trim_blanks, unknown_command,
}
use khazar_os.Agents.PackageManager.{
  Ran, detect_pkg_manager, run_command, pkg_install_cmd, pkg_remove_cmd, pkg_search_cmd,
  pkg_update_cmd, with_target, command_for, run_option, execute_action, not_run, exited, signalled,
}

abbrev pub install_words : List Bytes
install_words = lit "install" ∷ lit "yukle" ∷ lit "yükle" ∷ lit "kur" ∷ []

abbrev pub remove_words : List Bytes
remove_words = lit "remove" ∷ lit "kaldir" ∷ lit "kaldır" ∷ lit "sil" ∷ lit "uninstall" ∷ []

abbrev pub search_words : List Bytes
search_words = lit "search" ∷ lit "ara" ∷ lit "find" ∷ []

abbrev pub update_words : List Bytes
update_words = lit "update" ∷ lit "guncelle" ∷ lit "güncelle" ∷ lit "upgrade" ∷ []

unfoldable pub package_of : List Bytes → Bytes → Bytes
unfolding behind_word trim_blanks
package_of words query = trim_blanks (behind_word words query)

unfoldable pub on_install : (Bytes → Ran) → Bytes → Bytes → Done
unfolding execute_action report
on_install system manager [] = unknown_command
on_install system manager (c ∷ pkg) =
    report (lit "installed " ++ (c ∷ pkg)) (lit "failed to install " ++ (c ∷ pkg))
      (execute_action system manager (lit "install") (c ∷ pkg))

unfoldable pub on_remove : (Bytes → Ran) → Bytes → Bytes → Done
unfolding execute_action report
on_remove system manager [] = unknown_command
on_remove system manager (c ∷ pkg) =
    report (lit "removed " ++ (c ∷ pkg)) (lit "failed to remove " ++ (c ∷ pkg))
      (execute_action system manager (lit "remove") (c ∷ pkg))

-- The status of the search is not looked at.
unfoldable pub on_search : (Bytes → Ran) → Bytes → Bytes → Done
unfolding execute_action
on_search system manager [] = unknown_command
on_search system manager (c ∷ pkg) = record {
  success = true;
  message = strncpy 511 (lit "searched for " ++ (c ∷ pkg));
  command = (execute_action system manager (lit "search") (c ∷ pkg)).0;
}

unfoldable pub on_update : (Bytes → Ran) → Bytes → Done
unfolding execute_action report
on_update system manager =
    report (lit "system updated") (lit "update failed")
      (execute_action system manager (lit "update") [])

-- From the query to the reply's parts.
unfoldable pub carry_out : (Bytes → Ran) → Bytes → Bytes → Done
unfolding any_word package_of on_install on_remove on_search on_update
carry_out system manager query =
    if any_word install_words query
    then on_install system manager (package_of install_words query)
    else if any_word remove_words query
    then on_remove system manager (package_of remove_words query)
    else if any_word search_words query
    then on_search system manager (package_of search_words query)
    else if any_word update_words query
    then on_update system manager
    else unknown_command

-- The bytes sent, and the command that was run.
unfoldable pub handle_client : (Bytes → Ran) → Bytes → Bytes → Bytes × Option Bytes
unfolding carry_out answer
handle_client system manager = answer (carry_out system manager)

abbrev pub identity : Identity
identity = record {
  name = lit "package-agent";
  version = lit "0.1.0";
  socket = lit "/run/ai-package-agent.sock";
  capabilities =
      lit "install_package"
      ∷ lit "remove_package"
      ∷ lit "search_package"
      ∷ lit "system_update"
      ∷ [];
}

-- A round of the main loop.
unfoldable pub main_round :
    (Bytes → Ran) → Bytes → Link → Turn → Link × Option (Bytes × Option Bytes) × List Bytes
unfolding handle_client
main_round system manager = Daemon.main_round (handle_client system manager) identity
