-- ===== src/Agents/Task/Outcome.antt =====
-- What an agent did for a query: the command that it handed to the shell, and whether it answers with
-- success.
use khazar_os.Common.{
  zero, suc, ◌==◌, ◌≡◌, refl, sym, ◌∙◌, inl, inr, Bool, true, false, Option, none, some, arith,
  if◌then◌else◌, ℤ, Bool-cases,
}
use khazar_os.CString.{Bytes, lit, contains}
use khazar_os.Agents.PackageManager.{Ran, exited, signalled, not_run, run_command}
use khazar_os.Agents.Task.{Done, unknown_command, is_zero, report, query_of, answer}

-- The command ended with the status 0 or by a signal.
abbrev pub ends_well : Ran → Bool
ends_well (exited status) = status == 0
ends_well signalled = true
ends_well not_run = false

-- A command was run, and ended well.
abbrev pub succeeds : (Bytes → Ran) → Option Bytes → Bool
succeeds system none = false
succeeds system (some cmd) = ends_well (system cmd)

run_command-ends_well : (r : Ran) → is_zero (run_command r) ≡ ends_well r
unfolding is_zero run_command
run_command-ends_well (exited zero) = refl
run_command-ends_well (exited (suc n)) = ground arith
run_command-ends_well signalled = refl
run_command-ends_well not_run = refl

pub report-success :
    (done failed : Bytes) (p : Option Bytes × ℤ) → (report done failed p).success ≡ is_zero p.1
unfolding report
report-success done failed (command, status) = ground arith

pub report-command :
    (done failed : Bytes) (p : Option Bytes × ℤ) → (report done failed p).command ≡ p.0
unfolding report
report-command done failed (command, status) = ground arith

-- The command is `o`, and the agent answers with success where it ended well and only there.
pub record Agrees (system : Bytes → Ran) (d : Done) (o : Option Bytes) : Type 0 where
  pub command_is : d.command ≡ o
  pub success_is : d.success ≡ succeeds system o

pub ran-Agrees :
    (system : Bytes → Ran) (cmd done failed : Bytes)
    → Agrees system (report done failed (some cmd, run_command (system cmd))) (some cmd)
ran-Agrees system cmd done failed = record {
  command_is = report-command done failed (some cmd, run_command (system cmd));
  success_is =
      report-success done failed (some cmd, run_command (system cmd))
      ∙ run_command-ends_well (system cmd);
}

pub unknown-Agrees : (system : Bytes → Ran) → Agrees system unknown_command none
unknown-Agrees system = record { command_is = refl; success_is = refl }

pub Agrees-if :
    (system : Bytes → Ran) (b : Bool) (x y : Done) (u v : Option Bytes)
    → Agrees system x u
    → Agrees system y v
    → Agrees system (if b then x else y) (if b then u else v)
Agrees-if system true x y u v p q = p
Agrees-if system false x y u v p q = q

-- Each command that was handed to the shell meets `P`.
pub record Runs {ℓ} (P : Bytes → Type ℓ) (d : Done) : Type ℓ where
  pub meets : (cmd : Bytes) → d.command ≡ some cmd → P cmd

module _ {ℓ} (P : Bytes → Type ℓ) where
  pub Runs-if : (b : Bool) (x y : Done) → Runs P x → Runs P y → Runs P (if b then x else y)
  Runs-if true x y p q = p
  Runs-if false x y p q = q

  pub unknown-Runs : Runs P unknown_command
  unknown-Runs = record { meets = λ cmd e. absurd (cc) }

  pub report-Runs :
      (done failed : Bytes) (o : Option Bytes) (status : ℤ)
      → ((cmd : Bytes) → o ≡ some cmd → P cmd)
      → Runs P (report done failed (o, status))
  report-Runs done failed o status h = record {
    meets = λ cmd e. h cmd (sym (report-command done failed (o, status)) ∙ e);
  }

pub answer-command :
    (carry_out : Bytes → Done) (raw cmd : Bytes)
    → (answer carry_out raw).1 ≡ some cmd
    → (carry_out (query_of raw)).command ≡ some cmd
unfolding answer
answer-command carry_out raw cmd e = elim (Bool-cases (contains raw (lit "\"type\":\"ping\""))) [
  | inl y ↦ absurd (ground arith)
  | inr n ↦ ground arith
]
