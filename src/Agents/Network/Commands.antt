-- ===== src/Agents/Network/Commands.antt =====
-- Which commands the network agent hands to the shell.
use khazar_os.Common.{
  ◌≤◌, ◌≡◌, refl, sym, ◌∙◌, ◌⊎◌, inl, inr, true, false, ◌&&◌, some, [], ◌∷◌, ◌++◌, arith, ◌==◌,
  length, length-append,
}
use khazar_os.CString.{Bytes, lit, str_eq, contains}
use khazar_os.Common.{All}
use mathlib.Core.Option.{some-injective}
use khazar_os.CString.Laws.{contains-tail, take-all}
use khazar_os.Agents.PackageManager.{Ran, run_command, run_option}
use khazar_os.Agents.Task.{any_word, behind_word, query_of, report}
use khazar_os.Agents.Task.Outcome.{
  Runs, Runs-if, unknown-Runs, report-Runs, report-command, answer-command,
}
use khazar_os.Agents.Task.Pieces.{
  length-trim_blanks_le, length-behind_word_le, All-trim_blanks, All-behind_word, query_of-free,
}
use khazar_os.Agents.Network.{
  connect_cmd, command_for, execute_action, enable_words, disable_words, status_words,
  connect_words, ssid_of, on_connect, on_status, carry_out, handle_client,
}

-- A text of 1 to 127 bytes without a quote, in quotes.
abbrev pub IsConnect : Bytes → Type 0
IsConnect cmd =
    (ssid : Bytes) × All (λ c. (c == b'"') ≡ false) ssid
    × (1 ≤ length ssid)
    × (length ssid ≤ 127)
    × (cmd ≡ lit "nmcli device wifi connect \"" ++ (ssid ++ lit "\""))

abbrev pub IsCommand : Bytes → Type 0
IsCommand cmd =
    (cmd ≡ lit "nmcli radio wifi on")
    ⊎ ((cmd ≡ lit "nmcli radio wifi off") ⊎ ((cmd ≡ lit "nmcli device status") ⊎ IsConnect cmd))

length-ssid_of_le : (query : Bytes) → length (ssid_of query) ≤ 127
unfolding ssid_of
length-ssid_of_le query = omega (
  arith,
  length-trim_blanks_le (behind_word connect_words query),
  length-behind_word_le connect_words query,
)

connect_cmd-IsConnect :
    (ssid cmd : Bytes)
    → All (λ c. (c == b'"') ≡ false) ssid
    → length ssid ≤ 127
    → connect_cmd ssid ≡ some cmd
    → IsConnect cmd
unfolding connect_cmd
connect_cmd-IsConnect [] cmd h l e = absurd (cc)
connect_cmd-IsConnect (c ∷ ssid) cmd h l e =
    let text : Bytes = lit "nmcli device wifi connect \"" ++ ((c ∷ ssid) ++ lit "\"") in
    let fits : length text ≤ 2047 = omega (arith, length-append (c ∷ ssid) (lit "\"")) in
    (c ∷ ssid, h, omega arith, l, sym (some-injective _ _ e) ∙ take-all 2047 text fits)

run_option-Runs :
    (system : Bytes → Ran) (done failed cmd : Bytes)
    → IsCommand cmd
    → Runs IsCommand (report done failed (run_option system (some cmd)))
unfolding run_option
run_option-Runs system done failed cmd h =
    report-Runs IsCommand done failed (some cmd) (run_command (system cmd))
      (λ other e. rw (some-injective _ _ e) at h)

on_connect-Runs :
    (system : Bytes → Ran) (ssid : Bytes)
    → All (λ c. (c == b'"') ≡ false) ssid
    → length ssid ≤ 127
    → Runs IsCommand (on_connect system ssid)
unfolding on_connect execute_action command_for str_eq connect_cmd
on_connect-Runs system [] h l = unknown-Runs IsCommand
on_connect-Runs system (c ∷ ssid) h l =
    run_option-Runs system (lit "connected to " ++ (c ∷ ssid))
      (lit "failed to connect to " ++ (c ∷ ssid)) _
      (inr (inr (inr (connect_cmd-IsConnect (c ∷ ssid) _ h l refl))))

on_status-Runs : (system : Bytes → Ran) → Runs IsCommand (on_status system)
unfolding on_status execute_action command_for str_eq run_option
on_status-Runs system = record { meets = λ cmd e. inr (inr (inl (sym (some-injective _ _ e)))) }

carry_out-Runs :
    (system : Bytes → Ran) (query : Bytes)
    → All (λ c. (c == b'"') ≡ false) query
    → Runs IsCommand (carry_out system query)
unfolding carry_out execute_action command_for str_eq ssid_of
carry_out-Runs system query h =
    Runs-if IsCommand (contains query (lit "wifi") && any_word enable_words query) _ _
      (run_option-Runs system (lit "wifi enabled") (lit "failed to enable wifi") _ (inl refl))
      (Runs-if IsCommand (contains query (lit "wifi") && any_word disable_words query) _ _
        (run_option-Runs system (lit "wifi disabled") (lit "failed to disable wifi") _
          (inr (inl refl)))
        (Runs-if IsCommand (any_word status_words query) _ _ (on_status-Runs system) (
          Runs-if IsCommand (any_word connect_words query) _ _
            (on_connect-Runs system (ssid_of query)
              (All-trim_blanks _ _ (All-behind_word _ connect_words query h))
              (length-ssid_of_le query))
            (unknown-Runs IsCommand))))

disconnect-connect :
    (query : Bytes) → contains query (lit "disconnect") ≡ true → any_word connect_words query ≡ true
unfolding any_word
disconnect-connect query h =
    let inside = contains-tail (lit "dis") (lit "connect") query h in ground (arith, inside)

module _ (system : Bytes → Ran) where
  -- Each command that a message makes the agent run is one of the three fixed ones, or the one for
  -- connecting with a network name of 1 to 127 bytes in quotes, whole, that holds no quote itself.
  pub handle_client-IsCommand :
      (raw cmd : Bytes) → (handle_client system raw).1 ≡ some cmd → IsCommand cmd
  unfolding handle_client
  handle_client-IsCommand raw cmd e =
      (carry_out-Runs system (query_of raw) (query_of-free raw)).meets cmd
        (answer-command (carry_out system) raw cmd e)

  on_connect-command : (ssid : Bytes) → (on_connect system ssid).command ≡ connect_cmd ssid
  unfolding on_connect execute_action command_for str_eq connect_cmd run_option
  on_connect-command [] = refl
  on_connect-command (c ∷ ssid) =
      report-command (lit "connected to " ++ (c ∷ ssid)) (lit "failed to connect to " ++ (c ∷ ssid))
        (execute_action system (lit "connect") (c ∷ ssid))

  -- A query with the word "disconnect" and without "wifi" or a word for the status is taken for one to
  -- connect: the command is that for connecting with the text behind the word "connect".
  pub carry_out-disconnect :
      (query : Bytes)
      → contains query (lit "disconnect") ≡ true
      → contains query (lit "wifi") ≡ false
      → any_word status_words query ≡ false
      → (carry_out system query).command ≡ connect_cmd (ssid_of query)
  unfolding carry_out
  carry_out-disconnect query h w n =
      let taken = disconnect-connect query h in
      rw (w, n, taken) (on_connect-command (ssid_of query))
