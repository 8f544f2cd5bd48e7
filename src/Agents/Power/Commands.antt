-- ===== src/Agents/Power/Commands.antt =====
-- Which commands the power agent hands to the shell.
use khazar_os.Common.{
  ◌≡◌, refl, inl, inr, Bool-cases, Bool, true, false, ◌&&◌, Option, none, some, List, [], ◌∷◌,
  arith, if◌then◌else◌,
}
use khazar_os.CString.{Bytes, lit, contains}
use khazar_os.CString.Laws.{contains-tail}
use khazar_os.Agents.PackageManager.{Ran}
use khazar_os.Agents.Task.Outcome.{Agrees, ran-Agrees, unknown-Agrees, Agrees-if}
use khazar_os.Agents.Task.{Done, unknown_command, any_word}
use khazar_os.Agents.Power.{
  shutdown_words, reboot_words, suspend_words, hibernate_words, lock_words, logout_words, carry_out,
}

-- The words of each command, in the order in which they are looked for.
abbrev pub table : List (List Bytes × Bytes)
table =
    (shutdown_words, lit "systemctl poweroff")
    ∷ (reboot_words, lit "systemctl reboot")
    ∷ (suspend_words, lit "systemctl suspend")
    ∷ (hibernate_words, lit "systemctl hibernate")
    ∷ (lock_words, lit "loginctl lock-session")
    ∷ (logout_words, lit "loginctl terminate-session")
    ∷ []

abbrev pub first_command : List (List Bytes × Bytes) → Bytes → Option Bytes
first_command [] query = none
first_command ((words, cmd) ∷ rest) query =
    if any_word words query then some cmd else first_command rest query

abbrev pub chosen : Bytes → Option Bytes
chosen query =
    if any_word shutdown_words query && contains query (lit "wifi")
    then none
    else first_command table query

wifi-Agrees :
    (system : Bytes → Ran) (a b : Bool) (x y : Done) (u v : Option Bytes)
    → Agrees system x u
    → Agrees system y v
    → Agrees system
        (if a then (if b then unknown_command else x) else y)
        (if a && b then none else if a then u else v)
wifi-Agrees system true true x y u v p q = unknown-Agrees system
wifi-Agrees system true false x y u v p q = p
wifi-Agrees system false b x y u v p q = q

logout-shutdown :
    (query : Bytes)
    → contains query (lit "oturumu kapat") ≡ true
    → any_word shutdown_words query ≡ true
unfolding any_word
logout-shutdown query h =
    let inside = contains-tail (lit "oturumu ") (lit "kapat") query h in ground (arith, inside)

module _ (system : Bytes → Ran) (query : Bytes) where
  -- The command of a query is the one of the first row of the table with a word that occurs in the query,
  -- whatever else stands there, and none where no word occurs or where "wifi" stands beside a word for
  -- shutting down. The answer is success exactly when a command was run and ended with the status 0 or by a
  -- signal.
  pub carry_out-Agrees : Agrees system (carry_out system query) (chosen query)
  unfolding carry_out
  carry_out-Agrees =
      wifi-Agrees system (any_word shutdown_words query) (contains query (lit "wifi")) _ _ _ _
        (ran-Agrees system (lit "systemctl poweroff") (lit "shutdown initiated")
          (lit "shutdown failed"))
        (Agrees-if system (any_word reboot_words query) _ _ _ _
          (ran-Agrees system (lit "systemctl reboot") (lit "reboot initiated")
            (lit "reboot failed"))
          (Agrees-if system (any_word suspend_words query) _ _ _ _
            (ran-Agrees system (lit "systemctl suspend") (lit "suspend initiated")
              (lit "suspend failed"))
            (Agrees-if system (any_word hibernate_words query) _ _ _ _
              (ran-Agrees system (lit "systemctl hibernate") (lit "hibernate initiated")
                (lit "hibernate failed"))
              (Agrees-if system (any_word lock_words query) _ _ _ _
                (ran-Agrees system (lit "loginctl lock-session") (lit "session locked")
                  (lit "lock failed"))
                (Agrees-if system (any_word logout_words query) _ _ _ _
                  (ran-Agrees system (lit "loginctl terminate-session") (lit "logout initiated")
                    (lit "logout failed"))
                  (unknown-Agrees system))))))

  -- A query for ending the session with the words "oturumu kapat" never ends the session: with "wifi" in it
  -- no command is run and the answer is an error, and else the command turns the machine off, and the
  -- answer is success exactly when that command ends with the status 0 or by a signal.
  pub carry_out-logout :
      contains query (lit "oturumu kapat") ≡ true
      → Agrees system
          (carry_out system query)
          (if contains query (lit "wifi") then none else some (lit "systemctl poweroff"))
  carry_out-logout h = elim (Bool-cases (contains query (lit "wifi"))) [
    | inl w ↦
        let e : chosen query ≡ none = rw (logout-shutdown query h, w) refl in
        rw w (rw e at carry_out-Agrees)
    | inr w ↦
        let e : chosen query ≡ some (lit "systemctl poweroff") =
          rw (logout-shutdown query h, w) refl in
        rw w (rw e at carry_out-Agrees)
  ]
