-- ===== src/Utils/Processes.antt =====
-- src/oms_utils.c: `run_command` and `run_command_with_output_logged`, which the other parts do not
-- call.
use osmud.Prelude.{
  ℕ, ◌≡◌, false, Option, none, some, List, [], ◌∷◌, ◌++◌, if◌then◌else◌, ◌==◌, ==_iff, All, refl,
}
use osmud.CString.{Bytes}

-- what `fork` returns; in the child the caller goes on only where `execvp` fails
pub data Forked : Type 0 where
  fork_failed : Forked
  in_child : Forked
  in_parent : ℕ → Forked

-- The loop over what `wait` returns, each a process and its status; none where it goes on for ever.
unfoldable pub wait_for : ℕ → List (ℕ × ℕ) → Option ℕ
wait_for pid [] = none
wait_for pid ((waited, errorcode) ∷ more) =
    let rest = wait_for pid more in if waited == pid then some errorcode else rest

unfoldable pub run_command : Forked → List (ℕ × ℕ) → Option ℕ
unfolding wait_for
run_command fork_failed waits = some 1
run_command in_child waits = some 0
run_command (in_parent pid) waits = wait_for pid waits

-- It returns before it starts the command.
unfoldable pub run_command_with_output_logged : Bytes → ℕ
run_command_with_output_logged full_command_line = 0

-- The result is the status of the child, whichever other children end before it.
pub run_command-status :
    (pid errorcode : ℕ) (others more : List (ℕ × ℕ))
    → All (λ w. (w.0 == pid) ≡ false) others
    → run_command (in_parent pid) (others ++ ((pid, errorcode) ∷ more)) ≡ some errorcode
unfolding run_command wait_for
run_command-status pid errorcode [] more h = rw ((==_iff pid pid).1 refl) refl
run_command-status pid errorcode ((waited, code) ∷ others) more h =
    rw h.0 (run_command-status pid errorcode others more h.1)
