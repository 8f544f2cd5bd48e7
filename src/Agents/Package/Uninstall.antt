-- ===== src/Agents/Package/Uninstall.antt =====
-- What the package agent does with a query for removing (khazar/agents/package-agent/main.c).
use khazar_os.Common.{◌≡◌, refl, true, some, arith}
use khazar_os.CString.{Bytes, lit, contains}
use khazar_os.CString.Laws.{contains-tail}
use khazar_os.Agents.PackageManager.{Ran, pkg_install_cmd, with_target}
use khazar_os.Agents.Task.{any_word}
use khazar_os.Agents.Package.{install_words, package_of, carry_out}
use khazar_os.Agents.Package.Commands.{on_install-command}

uninstall-install :
    (query : Bytes) → contains query (lit "uninstall") ≡ true → any_word install_words query ≡ true
unfolding any_word
uninstall-install query h =
    let inside : contains query (lit "install") ≡ true =
      contains-tail (lit "un") (lit "install") query h in
    rw inside refl

-- A query with the word "uninstall" is taken for an installation: the only command that the agent can
-- run for it is the install command of the package manager with the package behind the word "install".
pub carry_out-uninstall :
    (system : Bytes → Ran) (manager query cmd : Bytes)
    → contains query (lit "uninstall") ≡ true
    → (carry_out system manager query).command ≡ some cmd
    → with_target (pkg_install_cmd manager) (package_of install_words query) ≡ some cmd
unfolding carry_out
carry_out-uninstall system manager query cmd h e =
    let taken = uninstall-install query h in
    on_install-command system manager (package_of install_words query) cmd (ground (arith, taken))
