-- ===== src/Scripts/Installed.antt =====
-- What a run of a command of src/openwrt/openwrt.c does to the configuration and the files.
use osmud.Prelude.{◌++◌, [], refl, ◌∷◌, ◌<◌, Bool, ◌≡◌, ap, ◌∙◌, if◌then◌else◌, length}
use osmud.CString.{has, str_eq, Bytes}
use osmud.CString.Laws.{snprintf_fits}
use osmud.Outside.{system}
use osmud.OpenWrt.{
  uci_firewall_commit_script, uci_firewall_rollback_script, FirewallRule, firewall_command,
  buf_size, command,
}
use osmud.Scripts.Shell.{simple, read_command, any_byte, read_command-command_text, arguments}
use osmud.Scripts.Firewall.{
  commit_ip_fw_rules, rollback_ip_fw_rules, create_rule_with, create_rule_of, add_firewall_rule,
  create_ip_fw_rule,
}
use osmud.Scripts.Install.{section_of, rules-add_firewall_rule, saved-add_firewall_rule}
use osmud.Scripts.RoundTrip.{
  IsWord-of_is_plain, IsPlainRule, rule_options, variables_of, read_command-firewall_command,
  getopts-rule_options, rule_variables-rule_options, lacks_variable-variables_of,
}
use osmud.Scripts.Machine.{World, Tools, run_program, run_command_text, run_effect, run_reading}

read_commit : read_command uci_firewall_commit_script ≡ simple (uci_firewall_commit_script ∷ [])
unfolding any_byte has
read_commit =
    read_command-command_text uci_firewall_commit_script []
      (IsWord-of_is_plain uci_firewall_commit_script refl) tt

read_rollback :
    read_command uci_firewall_rollback_script ≡ simple (uci_firewall_rollback_script ∷ [])
unfolding any_byte has
read_rollback =
    read_command-command_text uci_firewall_rollback_script []
      (IsWord-of_is_plain uci_firewall_rollback_script refl) tt

module _ {S : Type 0} (tools : Tools S) where
  create_ip_fw_rule-rule_options :
      (r : FirewallRule) (action : Bytes) (s : S)
      → IsPlainRule r action
      → create_ip_fw_rule tools.uci (arguments (rule_options r action)) s
        ≡ (0, add_firewall_rule tools.uci (variables_of r action) s)
  unfolding create_ip_fw_rule create_rule_with create_rule_of
  create_ip_fw_rule-rule_options r action s h =
      ap (λ o. create_rule_with tools.uci o s) (getopts-rule_options r action)
      ∙ ap (λ v. create_rule_of tools.uci v s) (rule_variables-rule_options r action)
      ∙ ap
          (λ (b : Bool).
            if b then (1, s) else (0, add_firewall_rule tools.uci (variables_of r action) s))
          (lacks_variable-variables_of r action h)

  -- The command of a rule runs create_ip_fw_rule.sh with the texts of the rule in its variables.
  pub run_effect-firewall_command :
      (r : FirewallRule) (action : Bytes) (w : World S)
      → IsPlainRule r action
      → length (firewall_command r action) < buf_size
      → run_effect tools (command (firewall_command r action)) w ≡ (
        0,
        record {
          config = add_firewall_rule tools.uci (variables_of r action) w.config;
          files = w.files;
        },
      )
  unfolding run_command_text run_reading run_program str_eq
  run_effect-firewall_command r action w h fits =
      ap (λ text. run_command_text tools text w) (snprintf_fits buf_size _ fits)
      ∙ ap (λ o. run_reading tools (firewall_command r action) o w)
          (read_command-firewall_command r action h)
      ∙ ap (λ o. (o.0, record { config = o.1; files = w.files }))
          (create_ip_fw_rule-rule_options r action w.config h)

  -- The command of a rule whose texts are words that stand for themselves, and which fits the buffer
  -- of 4096 bytes: it ends with status 0, the section of the rule stands behind the rules, and what
  -- is saved and the files stay. The section has the values of the rule, and no option for a value
  -- that stands for any.
  pub run_effect-section_of :
      (r : FirewallRule) (action : Bytes) (w : World S)
      → IsPlainRule r action
      → length (firewall_command r action) < buf_size
      → (s : S) × (run_effect tools (command (firewall_command r action)) w
          ≡ (0, record { config = s; files = w.files }))
        × (tools.uci.rules s
            ≡ tools.uci.rules w.config ++ (section_of (variables_of r action) ∷ []))
        × (tools.uci.saved s ≡ tools.uci.saved w.config)
  run_effect-section_of r action w h fits = (
    add_firewall_rule tools.uci (variables_of r action) w.config,
    run_effect-firewall_command r action w h fits,
    rules-add_firewall_rule tools.uci (variables_of r action) w.config
        (lacks_variable-variables_of r action h),
    saved-add_firewall_rule tools.uci (variables_of r action) w.config,
  )

  -- The commit saves the rules, and the roll back undoes what is not saved; both end with status 0.
  pub run_effect-commit :
      (w : World S)
      → run_effect tools (system uci_firewall_commit_script) w
        ≡ (0, record { config = tools.uci.commit w.config; files = w.files })
  unfolding run_command_text run_reading run_program commit_ip_fw_rules str_eq
  run_effect-commit w = ap (λ r. run_reading tools uci_firewall_commit_script r w) read_commit

  pub run_effect-rollback :
      (w : World S)
      → run_effect tools (system uci_firewall_rollback_script) w
        ≡ (0, record { config = tools.uci.revert w.config; files = w.files })
  unfolding run_command_text run_reading run_program rollback_ip_fw_rules str_eq
  run_effect-rollback w = ap (λ r. run_reading tools uci_firewall_rollback_script r w) read_rollback
