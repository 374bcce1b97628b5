-- ===== src/Scripts/Removed.antt =====
-- The commands of a DEL event: what stays of the rules and of the database.
use osmud.Prelude.{ℕ, ◌<◌, ◌≤◌, ◌+◌, Bool, Option, List, [], ◌∷◌, ◌≡◌, refl, ap, ◌∙◌, length, ok}
use osmud.CString.{Bytes, shown, has, str_eq}
use osmud.CString.Laws.{snprintf_fits}
use osmud.Outside.{Env, Effect, system}
use osmud.DhcpEvent.{DhcpEvent, del_action}
use osmud.OpenWrt.{
  buf_size, command, remove_rule_command, uci_firewall_remove_script, uci_firewall_commit_script,
  remove_entry_command, mud_db_removed_file, remove_firewall_ip_rule, remove_mud_db_device_entry,
  commit_and_apply_firewall_rules,
}
use osmud.MudParser.Values.{JsonC}
use osmud.MudManager.Access.{Globals}
use osmud.MudManager.{Counters, execute_open_mud_dhcp_action, execute_del_dhcp_action, dispatch}
use osmud.Scripts.Shell.{IsWord, command_text, read_command-command_text, any_byte}
use osmud.Scripts.Getopts.{getopts-arguments, takes_value, set_from}
use osmud.Scripts.Uci.{Section}
use osmud.Scripts.Firewall.{
  remove_ip_fw_rule, remove_rule_with, remove_rule_options, delete_rules, rules_to_delete,
}
use osmud.Scripts.RoundTrip.{IsWord-of_is_plain, is_missing-IsWord}
use osmud.Scripts.Indices.{others}
use osmud.Scripts.Removal.{ShowsOnce, delete_rules-rules_to_delete}
use osmud.Scripts.Entries.{run_effect-remove_entry_command}
use osmud.Scripts.Machine.{
  World, Tools, run_program, run_command_text, run_effect, run_reading, replay,
}
use osmud.Scripts.Grown.{commit-rules, rules_at, saved_at}
use osmud.Scripts.Installed.{run_effect-commit}

module _ {S : Type 0} (tools : Tools S) where
  -- Where its texts are words and it fits the buffer, the command that removes the rules of a
  -- device ends with status 0, after the loop over the rules to delete; the files stay.
  pub run_effect-remove_rule_command :
      (ip mac : Option Bytes) (w : World S)
      → IsWord (shown ip)
      → IsWord (shown mac)
      → length (remove_rule_command ip mac) < buf_size
      → run_effect tools (command (remove_rule_command ip mac)) w ≡ (
        0,
        record {
          config =
              delete_rules tools.uci
                (rules_to_delete tools.uci tools.matches (shown ip) w.config)
                w.config;
          files = w.files;
        },
      )
  unfolding run_command_text run_reading run_program str_eq remove_ip_fw_rule remove_rule_command
      takes_value any_byte has set_from
  run_effect-remove_rule_command ip mac w ip_word mac_word fits =
      let options = (b'i', shown ip) ∷ (b'm', shown mac) ∷ [] in
      let text = command_text uci_firewall_remove_script options in
      let given =
        getopts-arguments remove_rule_options options ((refl, refl), ((refl, refl), tt)) in
      ap (λ s. run_command_text tools s w) (snprintf_fits buf_size text fits)
      ∙ ap (λ o. run_reading tools text o w)
          (read_command-command_text uci_firewall_remove_script options
            (IsWord-of_is_plain uci_firewall_remove_script refl)
            ((refl, ip_word), ((refl, mac_word), tt)))
      ∙ ap
          (λ o. (
            (remove_rule_with tools.uci tools.matches o w.config).0,
            record {
              config = (remove_rule_with tools.uci tools.matches o w.config).1;
              files = w.files;
            },
          ))
          given
      ∙ rw (remove_rule_with, is_missing-IsWord _ ip_word, is_missing-IsWord _ mac_word) refl

  -- the effects of a DEL event, the newest first
  abbrev pub deletion : Globals → DhcpEvent → List Effect → List Effect
  deletion g event t =
      system uci_firewall_commit_script
      ∷ command (remove_entry_command g.mud_file_data_directory event.ip_address event.mac_address)
      ∷ command (remove_rule_command event.ip_address event.mac_address)
      ∷ t

  -- A DEL event, whose texts are words and whose commands fit the buffer, where at most 10 rules
  -- are there and each rule of the device shows in one line and no other line matches its address:
  -- the event is counted, the other rules are saved in their order and are the rules, and the files
  -- stay as they are, the device's entry included.
  pub execute_open_mud_dhcp_action-deletion :
      (w : World S) (env : Env) (jc : JsonC) (g : Globals) (c : Counters) (event : DhcpEvent)
      (p : Section → Bool) (t : List Effect)
      → event.action ≡ del_action
      → IsWord (shown event.ip_address)
      → IsWord (shown event.mac_address)
      → IsWord (mud_db_removed_file g.mud_file_data_directory)
      → length (remove_rule_command event.ip_address event.mac_address) < buf_size
      → length (remove_entry_command g.mud_file_data_directory event.ip_address event.mac_address)
        < buf_size
      → ShowsOnce tools.uci tools.matches (shown event.ip_address) p (replay tools w t).config
      → length (rules_at tools w env t) ≤ 10
      → (execute_open_mud_dhcp_action env jc g c event t
          ≡ ok ((record c { delete_events = c.delete_events + 1 }, event), deletion g event t))
        × (saved_at tools w env (deletion g event t) ≡ others p (rules_at tools w env t))
        × (rules_at tools w env (deletion g event t) ≡ others p (rules_at tools w env t))
        × ((replay tools w (deletion g event t)).files ≡ (replay tools w t).files)
  unfolding replay execute_open_mud_dhcp_action execute_del_dhcp_action remove_firewall_ip_rule
      remove_mud_db_device_entry commit_and_apply_firewall_rules
  execute_open_mud_dhcp_action-deletion w env jc g c event p t at ip mac file fits fits' once few =
      let u = replay tools w t in
      let first = run_effect-remove_rule_command event.ip_address event.mac_address u ip mac fits in
      let second =
        run_effect-remove_entry_command tools g.mud_file_data_directory event.ip_address
          event.mac_address in
      let both =
        ap (λ (q : ℕ × World S). q.1) (second _ file ip mac fits')
        ∙ ap (λ (q : ℕ × World S). q.1) first in
      let rules =
        ap (λ (v : World S). tools.uci.rules v.config) both
        ∙ delete_rules-rules_to_delete tools.uci tools.matches (shown event.ip_address) p u.config
            once few in
      let middle =
        command (remove_entry_command g.mud_file_data_directory event.ip_address event.mac_address)
        ∷ command (remove_rule_command event.ip_address event.mac_address)
        ∷ t in
      let (kept, committed) = commit-rules tools w env middle in
      (
        ap (λ a. dispatch env jc g a c event t) at,
        committed ∙ rules,
        kept ∙ rules,
        ap (λ (q : ℕ × World S). q.1.files) (run_effect-commit tools _)
            ∙ ap (λ (v : World S). v.files) both,
      )
