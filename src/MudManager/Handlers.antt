-- ===== src/MudManager/Handlers.antt =====
-- The handlers by the action of the event, and the counters of the events.
use osmud.Prelude.{◌+◌, List, [], ◌∷◌, ◌++◌, ◌≡◌, ◌≢◌, refl, ok}
use osmud.Outside.{Env, Effect, system, exec_bind-eq-ok, ok-pair, pure}
use osmud.DhcpEvent.{DhcpEvent, DhcpAction, none_action, new_action, old_action, del_action}
use osmud.MudParser.Values.{JsonC}
use osmud.OpenWrt.{
  command, remove_rule_command, remove_entry_command, uci_firewall_commit_script,
  remove_firewall_ip_rule, remove_mud_db_device_entry, commit_and_apply_firewall_rules,
}
use osmud.MudManager.Access.{Globals}
use osmud.MudManager.{
  Counters, execute_del_dhcp_action, execute_old_dhcp_action, execute_open_mud_dhcp_action,
  dispatch, execute_new_dhcp_action,
}

-- The statistics with one more event of an action.
abbrev pub counted : DhcpAction → Counters → Counters
counted new_action c = record c { new_events = c.new_events + 1 }
counted old_action c = record c { old_events = c.old_events + 1 }
counted del_action c = record c { delete_events = c.delete_events + 1 }
counted none_action c = record c { error_events = c.error_events + 1 }

module _ (env : Env) (jc : JsonC) (g : Globals) where
  -- what an action other than NEW does
  abbrev pub plain_effects : DhcpAction → DhcpEvent → List Effect
  plain_effects del_action event =
      system uci_firewall_commit_script
      ∷ command (remove_entry_command g.mud_file_data_directory event.ip_address event.mac_address)
      ∷ command (remove_rule_command event.ip_address event.mac_address)
      ∷ []
  plain_effects _ event = []

  -- An event that is not NEW runs three scripts for DEL, whatever they return, and nothing for OLD
  -- and for an unknown action. The second script is the one that `MUD_DB_REMOVE_SCRIPT` names.
  pub execute_open_mud_dhcp_action_plain :
      (c : Counters) (event : DhcpEvent) (t : List Effect)
      → event.action ≢ new_action
      → execute_open_mud_dhcp_action env jc g c event t
        ≡ ok ((counted event.action c, event), plain_effects event.action event ++ t)
  unfolding execute_open_mud_dhcp_action execute_old_dhcp_action execute_del_dhcp_action
      remove_firewall_ip_rule remove_mud_db_device_entry commit_and_apply_firewall_rules
  execute_open_mud_dhcp_action_plain c event t h = go event.action refl h
    where
      go :
          (a : DhcpAction)
          → event.action ≡ a
          → a ≢ new_action
          → dispatch env jc g a c event t ≡ ok ((counted a c, event), plain_effects a event ++ t)
      go new_action e ne = absurd (ne refl)
      go old_action e ne = refl
      go del_action e ne = refl
      go none_action e ne = refl

  dispatch-counted :
      (a : DhcpAction) (c : Counters) (event : DhcpEvent) (t : List Effect) {c' : Counters}
      {e : DhcpEvent} {t' : List Effect}
      → dispatch env jc g a c event t ≡ ok ((c', e), t')
      → c' ≡ counted a c
  unfolding dispatch execute_old_dhcp_action execute_del_dhcp_action remove_firewall_ip_rule
      remove_mud_db_device_entry commit_and_apply_firewall_rules
  dispatch-counted new_action c event t h =
      let (r, ran, rest) =
        exec_bind-eq-ok (execute_new_dhcp_action env jc g event)
          (λ event'. pure (counted new_action c, event')) t h in
      let same = ok-pair rest in cc (same.0)
  dispatch-counted old_action c event t h = cc
  dispatch-counted del_action c event t h = cc
  dispatch-counted none_action c event t h = cc

  -- Every event that is dealt with adds one to the counter of its action, and leaves the others.
  pub execute_open_mud_dhcp_action-counted :
      (c : Counters) (event : DhcpEvent) (t : List Effect) {c' : Counters} {e : DhcpEvent}
      {t' : List Effect}
      → execute_open_mud_dhcp_action env jc g c event t ≡ ok ((c', e), t')
      → c' ≡ counted event.action c
  unfolding execute_open_mud_dhcp_action
  execute_open_mud_dhcp_action-counted c event t h = dispatch-counted event.action c event t h
