-- ===== src/MudManager.antt =====
-- src/mud_manager.c: from a DHCP event to the rules on the device. The globals that `main` sets are
-- the record `Globals`; messages to the log are left out.
pub mod Access
pub mod Resolution
pub mod Session
pub mod Rules
pub mod Commit
pub mod Ready
pub mod Returns
pub mod Documents
pub mod Plan
pub mod Planned
pub mod Locate
pub mod Pipeline
pub mod Statistics
pub mod Trace
pub mod Fetched
pub mod Gate
pub mod NewDevice
pub mod Committed
pub mod Handlers
use osmud.Prelude.{
  ℕ, zero, suc, ◌+◌, Bool, true, false, not, ◌&&◌, ◌||◌, Option, none, some, List, [], ◌∷◌, ◌++◌,
  Outcome, ok, fault, null_dereference, out_of_bounds, if◌then◌else◌, ◌==◌, ltb, length,
}
use osmud.CString.{Bytes, codes}
use osmud.Outside.{Env, Exec, Effect, lift, pure, crash, ◌>>=◌, ◌>>◌}
use osmud.Utils.{HeapText}
use osmud.DhcpEvent.{
  DhcpEvent, DhcpAction, none_action, new_action, old_action, del_action,
  create_sig_url_from_mud_url, create_storage_location,
}
use osmud.MudParser.Values.{JsonC}
use osmud.MudParser.Info.{AclEntry, MudAccessList, MudFileInfo}
use osmud.MudParser.{get_mud_file_acl, parse_mud_file}
use osmud.OpenWrt.{
  FirewallRule, install_firewall_ip_rule, remove_firewall_ip_rule, install_mud_db_device_entry,
  remove_mud_db_device_entry, commit_and_apply_firewall_rules, rollback_firewall_configuration,
  verify_cms_signature, valid_mud_file_sig,
}
use osmud.Comms.{get_open_mud_file}
use osmud.MudManager.Access.{
  Globals, lan_device_name, wan_device_name, process_from_access, process_to_access,
}

-- The DHCP statistics; 2^31 events of one kind are out of reach.
pub record Counters : Type 0 where
  pub new_events : ℕ
  pub old_events : ℕ
  pub delete_events : ℕ
  pub error_events : ℕ

unfoldable pub reset_dhcp_counters : Counters
reset_dhcp_counters = record { new_events = 0; old_events = 0; delete_events = 0; error_events = 0 }

-- the rule that blocks what no other rule of the device allows
abbrev pub reject_all_rule : DhcpEvent → FirewallRule
reject_all_rule event = record {
  src_ip = event.ip_address;
  dest_ip = some (codes "any");
  dest_port = codes "any";
  src_device = lan_device_name;
  dest_device = wan_device_name;
  protocol = some (codes "all");
  rule_name = some (codes "REJECT-ALL");
  fw_action = some (codes "DENY");
  acl_type = some (codes "all");
  host_name = event.host_name;
}

-- The text of a block, or NULL.
abbrev pub text_of : Option HeapText → Option Bytes
text_of none = none
text_of (some h) = some h.text

-- One of the two loops over an access list, with the function for its entries. `retval` becomes
-- 1 where an entry reports a problem.
unfoldable pub access_loop :
    (Option Bytes → Option AclEntry → Exec ℕ) → MudFileInfo → ℕ → List MudAccessList → ℕ → Exec ℕ
access_loop process mud_file zero accesses retval = pure retval
access_loop process mud_file (suc n) [] retval = crash out_of_bounds
access_loop process mud_file (suc n) (access ∷ accesses) retval = do
  acl ← lift (get_mud_file_acl access.acl_name mud_file)
  problem ← process access.acl_type acl
  access_loop process mud_file n accesses (if problem == 0 then retval else 1)

module _ (env : Env) (g : Globals) where
  -- commit or roll back
  unfoldable pub finish_rules : ℕ → Exec ℕ
  finish_rules retval =
      if retval == 0
      then commit_and_apply_firewall_rules env
      else rollback_firewall_configuration env

  -- the two loops over the access lists
  unfoldable pub run_access_lists : MudFileInfo → DhcpEvent → Exec ℕ
  run_access_lists mud_file event = do
    from_result ←
        access_loop (λ type acl. process_from_access env g type acl event) mud_file
          mud_file.from_access_list_count mud_file.from_access_list 0
    access_loop (λ type acl. process_to_access env g type acl event) mud_file
        mud_file.to_access_list_count mud_file.to_access_list from_result

  -- the rule that rejects the rest, and the end of the transaction
  unfoldable pub close_rules : DhcpEvent → ℕ → Exec ℕ
  close_rules event result = do
    action_result ← install_firewall_ip_rule env (reject_all_rule event)
    let retval = if action_result == 0 then result else 1
    finish_rules retval
    pure retval

  -- inside `if (mudFile)`
  unfoldable pub apply_mud_file : MudFileInfo → DhcpEvent → Exec ℕ
  unfolding access_loop finish_rules run_access_lists close_rules
  apply_mud_file mud_file event = do
    remove_firewall_ip_rule env event.ip_address event.mac_address
    result ← run_access_lists mud_file event
    close_rules event result

module _ (g : Globals) where
  -- The event with the four locations that a MUD aware device needs. The second and the third call
  -- of `basename` may cut slashes off the URLs.
  unfoldable pub locate : DhcpEvent → DhcpEvent
  locate event =
      let sig_url = text_of (create_sig_url_from_mud_url event.mud_file_url) in
      let (location, url) = create_storage_location g.mud_file_data_directory event.mud_file_url in
      let (sig_location, sig_url') = create_storage_location g.mud_file_data_directory sig_url in
      record event {
        mud_file_url = url;
        mud_sig_url = sig_url';
        mud_file_storage_location = text_of location;
        mud_sig_file_storage_location = text_of sig_location;
      }

module _ (env : Env) (jc : JsonC) (g : Globals) where
  unfoldable pub apply_parsed : Option MudFileInfo → DhcpEvent → Exec ℕ
  apply_parsed none event = pure 1
  apply_parsed (some mud_file) event = apply_mud_file env g mud_file event

  unfoldable pub execute_mud_with_dhcp_context : DhcpEvent → Exec ℕ
  unfolding apply_parsed
  execute_mud_with_dhcp_context event = do
    install_mud_db_device_entry env g.mud_file_data_directory event.ip_address event.mac_address
        event.mud_file_url event.mud_file_storage_location event.host_name
    mud_file ← parse_mud_file env jc event.mud_file_storage_location
    apply_parsed mud_file event

  unfoldable pub validate_mud_file_with_sig : DhcpEvent → Exec ℕ
  validate_mud_file_with_sig event =
      verify_cms_signature env event.mud_file_storage_location event.mud_sig_file_storage_location

  -- carry the MUD file out, and enter the device in the database once more
  unfoldable pub carry_out : DhcpEvent → Exec DhcpEvent
  carry_out event = do
    execute_mud_with_dhcp_context event
    install_mud_db_device_entry env g.mud_file_data_directory event.ip_address event.mac_address
        event.mud_file_url event.mud_file_storage_location event.host_name
    pure event

  -- with both files there and the result of the check of the signature
  unfoldable pub when_signed : ℕ → DhcpEvent → Exec DhcpEvent
  unfolding carry_out
  when_signed signature event =
      if signature == valid_mud_file_sig || g.no_fail_on_mud_validation
      then carry_out event
      else pure event

  unfoldable pub when_sig_fetched : ℕ → DhcpEvent → Exec DhcpEvent
  unfolding when_signed
  when_sig_fetched fetched event =
      if fetched == 0 || g.no_fail_on_mud_validation
      then (do signature ← validate_mud_file_with_sig event; when_signed signature event)
      else pure event

  unfoldable pub when_mud_fetched : ℕ → DhcpEvent → Exec DhcpEvent
  unfolding when_sig_fetched
  when_mud_fetched fetched event =
      if fetched == 0
      then (do
        sig_fetched ←
            get_open_mud_file env g.no_fail_on_mud_validation event.mud_sig_url
              event.mud_sig_file_storage_location
        when_sig_fetched sig_fetched event)
      else pure event

  -- a device with a MUD URL
  unfoldable pub execute_mud_device : DhcpEvent → Exec DhcpEvent
  unfolding when_mud_fetched
  execute_mud_device event = do
    fetched ←
        get_open_mud_file env g.no_fail_on_mud_validation event.mud_file_url
          event.mud_file_storage_location
    when_mud_fetched fetched event

  -- `doDhcpLegacyAction` only writes to the log.
  unfoldable pub execute_legacy_device : DhcpEvent → Exec DhcpEvent
  execute_legacy_device event = do
    install_mud_db_device_entry env g.mud_file_data_directory event.ip_address event.mac_address
        none none event.host_name
    pure event

  unfoldable pub new_action_for : Option Bytes → DhcpEvent → Exec DhcpEvent
  new_action_for none event = execute_legacy_device event
  new_action_for (some url) event = execute_mud_device (locate g event)

  unfoldable pub execute_new_dhcp_action : DhcpEvent → Exec DhcpEvent
  unfolding new_action_for
  execute_new_dhcp_action event = new_action_for event.mud_file_url event

  unfoldable pub execute_old_dhcp_action : DhcpEvent → Exec DhcpEvent
  execute_old_dhcp_action event = pure event

  unfoldable pub execute_del_dhcp_action : DhcpEvent → Exec DhcpEvent
  execute_del_dhcp_action event = do
    remove_firewall_ip_rule env event.ip_address event.mac_address
    remove_mud_db_device_entry env g.mud_file_data_directory event.ip_address event.mac_address
    commit_and_apply_firewall_rules env
    pure event

  unfoldable pub dispatch : DhcpAction → Counters → DhcpEvent → Exec (Counters × DhcpEvent)
  dispatch new_action c event = do
    event' ← execute_new_dhcp_action event
    pure (record c { new_events = c.new_events + 1 }, event')
  dispatch old_action c event = do
    event' ← execute_old_dhcp_action event
    pure (record c { old_events = c.old_events + 1 }, event')
  dispatch del_action c event = do
    event' ← execute_del_dhcp_action event
    pure (record c { delete_events = c.delete_events + 1 }, event')
  dispatch none_action c event = pure (record c { error_events = c.error_events + 1 }, event)

  unfoldable pub execute_open_mud_dhcp_action : Counters → DhcpEvent → Exec (Counters × DhcpEvent)
  unfolding dispatch
  execute_open_mud_dhcp_action c event = dispatch event.action c event
