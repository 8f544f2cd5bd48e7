-- ===== src/Agents/Tests.antt =====
-- The package agent at concrete queries.
mod Devices
mod Loop
use khazar_os.Common.{◌≡◌, refl, true, some}
use khazar_os.CString.{Bytes, lit, str_eq, strstr, is_some, strchr, skip_spaces}
use khazar_os.CString.Lines.{strtoull, decimal}
use khazar_os.Agents.PackageManager.{
  Ran, exited, signalled, with_target, pkg_install_cmd, run_command,
}
use khazar_os.Agents.Package.{install_words, package_of, carry_out, handle_client}
use khazar_os.Agents.Package.Uninstall.{carry_out-uninstall}

all_well : Bytes → Ran
all_well cmd = exited 0

carry_out-uninstall_test :
    with_target (pkg_install_cmd (lit "dnf")) (package_of install_words (lit "uninstall firefox"))
    ≡ some (lit "dnf install -y firefox")
unfolding is_some strstr carry_out str_eq run_command all_well pkg_install_cmd
carry_out-uninstall_test =
    carry_out-uninstall all_well (lit "dnf") (lit "uninstall firefox")
      (lit "dnf install -y firefox") refl refl

-- The query's text reaches the shell as it is.
shell_text_test :
    (carry_out all_well (lit "apt") (lit "install vlc; reboot")).command
    ≡ some (lit "apt-get install -y vlc; reboot")
unfolding carry_out is_some strstr str_eq run_command all_well pkg_install_cmd
shell_text_test = refl

-- A command that a signal ends counts as one that succeeds.
signal_test : (carry_out (λ cmd. signalled) (lit "apt") (lit "install vlc")).success ≡ true
unfolding carry_out is_some strstr str_eq run_command
signal_test = refl

failed_test :
    handle_client (λ cmd. exited 1) (lit "apt") (lit "{\"query\":\"install vlc\",\"id\":7}") ≡ (
      lit "{\"id\":7,\"status\":\"error\",\"payload\":{\"message\":\"failed to install vlc\"}}",
      some (lit "apt-get install -y vlc"),
    )
unfolding handle_client str_eq run_command strstr is_some pkg_install_cmd strtoull decimal strchr
    skip_spaces
failed_test = refl
