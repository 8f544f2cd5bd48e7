-- ===== src/Agents/PackageManager.antt =====
-- The commands of the package managers, and how the package agent runs them:
-- khazar/agents/package-agent/main.c. `system` is a parameter: how the command
-- ends. So is `access`, as the test of a path.
use khazar_os.Common.{ℕ, Bool, Option, none, some, [], ◌∷◌, ◌++◌, if◌then◌else◌, ℤ, pos, negsuc}
use khazar_os.CString.{Bytes, lit, str_eq, strncpy}

-- What `system` reports: -1, a normal exit with its status, or an end by a signal.
pub data Ran : Type 0 where
  not_run signalled : Ran
  exited : ℕ → Ran

-- The contents of `pkg_manager`, "apt" before.
unfoldable pub detect_pkg_manager : (Bytes → Bool) → Bytes
detect_pkg_manager access =
    if access (lit "/usr/bin/dnf5")
    then lit "dnf5"
    else if access (lit "/usr/bin/dnf")
    then lit "dnf"
    else if access (lit "/usr/bin/pacman")
    then lit "pacman"
    else if access (lit "/usr/bin/apt-get")
    then lit "apt"
    else if access (lit "/usr/bin/rpm-ostree")
    then lit "rpm-ostree"
    else lit "apt"

-- A command that a signal ends leaves `status` at 0.
unfoldable pub run_command : Ran → ℤ
run_command not_run = negsuc 0
run_command (exited status) = pos status
run_command signalled = pos 0

unfoldable pub pkg_install_cmd : Bytes → Bytes
pkg_install_cmd manager =
    if str_eq manager (lit "dnf5")
    then lit "dnf5 install -y"
    else if str_eq manager (lit "dnf")
    then lit "dnf install -y"
    else if str_eq manager (lit "pacman")
    then lit "pacman -S --noconfirm"
    else if str_eq manager (lit "rpm-ostree")
    then lit "rpm-ostree install"
    else lit "apt-get install -y"

unfoldable pub pkg_remove_cmd : Bytes → Bytes
pkg_remove_cmd manager =
    if str_eq manager (lit "dnf5")
    then lit "dnf5 remove -y"
    else if str_eq manager (lit "dnf")
    then lit "dnf remove -y"
    else if str_eq manager (lit "pacman")
    then lit "pacman -R --noconfirm"
    else if str_eq manager (lit "rpm-ostree")
    then lit "rpm-ostree uninstall"
    else lit "apt-get remove -y"

unfoldable pub pkg_search_cmd : Bytes → Bytes
pkg_search_cmd manager =
    if str_eq manager (lit "dnf5")
    then lit "dnf5 search"
    else if str_eq manager (lit "dnf")
    then lit "dnf search"
    else if str_eq manager (lit "pacman")
    then lit "pacman -Ss"
    else lit "apt-cache search"

unfoldable pub pkg_update_cmd : Bytes → Bytes
pkg_update_cmd manager =
    if str_eq manager (lit "dnf5")
    then lit "dnf5 update -y"
    else if str_eq manager (lit "dnf")
    then lit "dnf update -y"
    else if str_eq manager (lit "pacman")
    then lit "pacman -Syu --noconfirm"
    else if str_eq manager (lit "rpm-ostree")
    then lit "rpm-ostree upgrade"
    else lit "apt-get update && apt-get upgrade -y"

-- snprintf(cmd, sizeof(cmd), "%s %s", verb, target), unless there is no target
unfoldable pub with_target : Bytes → Bytes → Option Bytes
with_target verb [] = none
with_target verb (c ∷ target) = some (strncpy 2047 (verb ++ b' ' ∷ c ∷ target))

-- The command of an action, `none` where `execute_action` returns -1 before it runs one.
unfoldable pub command_for : Bytes → Bytes → Bytes → Option Bytes
unfolding with_target
command_for manager action target =
    if str_eq action (lit "install")
    then with_target (pkg_install_cmd manager) target
    else if str_eq action (lit "remove")
    then with_target (pkg_remove_cmd manager) target
    else if str_eq action (lit "search")
    then with_target (pkg_search_cmd manager) target
    else if str_eq action (lit "update")
    then some (strncpy 2047 (pkg_update_cmd manager))
    else none

-- The command that was run, and the value returned.
unfoldable pub run_option : (Bytes → Ran) → Option Bytes → Option Bytes × ℤ
run_option system none = (none, negsuc 0)
run_option system (some cmd) = (some cmd, run_command (system cmd))

unfoldable pub execute_action : (Bytes → Ran) → Bytes → Bytes → Bytes → Option Bytes × ℤ
unfolding command_for run_option
execute_action system manager action target = run_option system (command_for manager action target)
