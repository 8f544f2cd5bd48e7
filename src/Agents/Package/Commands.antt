-- ===== src/Agents/Package/Commands.antt =====
-- Which commands the package agent hands to the shell.
use khazar_os.Common.{
  ◌≤◌, ◌≡◌, refl, sym, ◌∙◌, ◌⊎◌, Option, none, some, [], ◌∷◌, ◌++◌, arith, length,
}
use khazar_os.CString.{Bytes, lit, str_eq}
use khazar_os.Agents.PackageManager.{
  Ran, pkg_install_cmd, pkg_remove_cmd, pkg_search_cmd, pkg_update_cmd, with_target, command_for,
  run_option, execute_action,
}
use khazar_os.Agents.Task.{report}
use khazar_os.Agents.Task.Outcome.{report-command}
use khazar_os.Agents.Package.{on_install, on_remove, on_search}

-- The first part of a command with a package.
abbrev pub IsVerb : Bytes → Bytes → Type 0
IsVerb manager verb =
    (verb ≡ pkg_install_cmd manager)
    ⊎ ((verb ≡ pkg_remove_cmd manager) ⊎ (verb ≡ pkg_search_cmd manager))

-- The whole update command, or a verb, a blank and a text of 1 to 127 bytes.
abbrev pub IsCommand : Bytes → Bytes → Type 0
IsCommand manager cmd =
    (cmd ≡ pkg_update_cmd manager)
    ⊎ ((verb : Bytes) × (pkg : Bytes) × IsVerb manager verb
        × (1 ≤ length pkg)
        × (length pkg ≤ 127)
        × (cmd ≡ verb ++ b' ' ∷ pkg))

run_option-command : (system : Bytes → Ran) (o : Option Bytes) → (run_option system o).0 ≡ o
unfolding run_option
run_option-command system none = refl
run_option-command system (some cmd) = refl

ran-command :
    (system : Bytes → Ran) (done failed : Bytes) (o : Option Bytes) (cmd : Bytes)
    → (report done failed (run_option system o)).command ≡ some cmd
    → o ≡ some cmd
ran-command system done failed o cmd e =
    sym (run_option-command system o) ∙ (sym (report-command done failed (run_option system o)) ∙ e)

module _ (system : Bytes → Ran) (manager : Bytes) where
  pub on_install-command :
      (pkg cmd : Bytes)
      → (on_install system manager pkg).command ≡ some cmd
      → with_target (pkg_install_cmd manager) pkg ≡ some cmd
  unfolding on_install execute_action command_for str_eq
  on_install-command [] cmd e = absurd (ground arith)
  on_install-command (c ∷ pkg) cmd e =
      ran-command system (lit "installed " ++ (c ∷ pkg)) (lit "failed to install " ++ (c ∷ pkg))
        (with_target (pkg_install_cmd manager) (c ∷ pkg)) cmd e

  pub on_remove-command :
      (pkg cmd : Bytes)
      → (on_remove system manager pkg).command ≡ some cmd
      → with_target (pkg_remove_cmd manager) pkg ≡ some cmd
  unfolding on_remove execute_action command_for str_eq
  on_remove-command [] cmd e = absurd (ground arith)
  on_remove-command (c ∷ pkg) cmd e =
      ran-command system (lit "removed " ++ (c ∷ pkg)) (lit "failed to remove " ++ (c ∷ pkg))
        (with_target (pkg_remove_cmd manager) (c ∷ pkg)) cmd e

  pub on_search-command :
      (pkg cmd : Bytes)
      → (on_search system manager pkg).command ≡ some cmd
      → with_target (pkg_search_cmd manager) pkg ≡ some cmd
  unfolding on_search execute_action command_for str_eq
  on_search-command [] cmd e = absurd (ground arith)
  on_search-command (c ∷ pkg) cmd e =
      sym (run_option-command system (with_target (pkg_search_cmd manager) (c ∷ pkg))) ∙ e
