-- ===== src/Scripts/Machine.antt =====
-- The effects of a run carried out: a command of `system` is read by the shell and runs its script.
use osmud.Prelude.{false, ◌==◌, Bool, ℕ, List, [], ◌∷◌, ◌≡◌, if◌then◌else◌}
use osmud.CString.{Bytes, codes, str_eq}
use osmud.Outside.{Env, Effect, system}
use osmud.MudManager.Session.{is_system}
use osmud.OpenWrt.{
  uci_firewall_script, uci_firewall_remove_script, mud_db_create_script, uci_firewall_commit_script,
  uci_firewall_rollback_script,
}
use osmud.Scripts.Shell.{Reading, read_command, simple, syntax_error, special}
use osmud.Scripts.Uci.{Uci}
use osmud.Scripts.Database.{Files, create_mud_db_entry, remove_mud_db_entry}
use osmud.Scripts.Firewall.{
  create_ip_fw_rule, remove_ip_fw_rule, commit_ip_fw_rules, rollback_ip_fw_rules,
}

-- the configuration of the firewall and the files
pub record World (S : Type 0) : Type 0 where
  pub config : S
  pub files : Files

-- What the scripts run on: `uci`, the match of an expression in a line by awk and grep, and what all
-- else does: an effect that is no command, a text that the shell reads in another way than as a
-- simple command, and a program that is no script.
pub record Tools (S : Type 0) : Type 0 where
  pub uci : Uci S
  pub matches : Bytes → Bytes → Bool
  pub other : Effect → World S → ℕ × World S
  -- An effect that is no command leaves the configuration.
  pub other-config :
      (e : Effect) (w : World S) → is_system e ≡ false → (other e w).1.config ≡ w.config

abbrev pub mud_db_remove_path : Bytes
mud_db_remove_path = codes "/etc/osmud/remove_mud_db_entry.sh"

module _ {S : Type 0} (tools : Tools S) where
  -- a script that changes the configuration, and one that changes the files
  abbrev pub on_config : (S → ℕ × S) → World S → ℕ × World S
  on_config f w = let r = f w.config in (r.0, record { config = r.1; files = w.files })

  abbrev pub on_files : (Files → ℕ × Files) → World S → ℕ × World S
  on_files f w = let r = f w.files in (r.0, record { config = w.config; files = r.1 })

  unfoldable pub run_program : Bytes → Bytes → List Bytes → World S → ℕ × World S
  run_program text program args w =
      if str_eq program uci_firewall_script
      then on_config (create_ip_fw_rule tools.uci args) w
      else if str_eq program uci_firewall_remove_script
      then on_config (remove_ip_fw_rule tools.uci tools.matches args) w
      else if str_eq program mud_db_create_script
      then on_files (create_mud_db_entry args) w
      else if str_eq program mud_db_remove_path
      then on_files (remove_mud_db_entry tools.matches args) w
      else if str_eq program uci_firewall_commit_script
      then on_config (commit_ip_fw_rules tools.uci) w
      else if str_eq program uci_firewall_rollback_script
      then on_config (rollback_ip_fw_rules tools.uci) w
      else tools.other (system text) w

  -- The status of a syntax error is 2.
  unfoldable pub run_reading : Bytes → Reading → World S → ℕ × World S
  unfolding run_program
  run_reading text (simple []) w = (0, w)
  run_reading text (simple (program ∷ args)) w = run_program text program args w
  run_reading text syntax_error w = (2, w)
  run_reading text special w = tools.other (system text) w

  unfoldable pub run_command_text : Bytes → World S → ℕ × World S
  unfolding run_reading
  run_command_text text w = run_reading text (read_command text) w

  abbrev pub run_effect : Effect → World S → ℕ × World S
  run_effect (system text) w = run_command_text text w
  run_effect e w = tools.other e w

  -- The world after the effects, the newest first, from the world at the start.
  unfoldable pub replay : World S → List Effect → World S
  replay w [] = w
  replay w (e ∷ t) = (run_effect e (replay w t)).1

  -- A command returns 0 to the program exactly if it ends with status 0.
  abbrev pub RunsScripts : World S → Env → Type 0
  RunsScripts w env =
      (t : List Effect) (text : Bytes)
      → (env.status t (system text) == 0) ≡ ((run_command_text text (replay w t)).0 == 0)
