-- ===== src/Tests/Gate.antt =====
-- The gate before a MUD file is carried out.
use osmud.Prelude.{some, List, [], ◌⊎◌, refl, Outcome, ok, fault}
use osmud.CString.{codes, shown, snprintf, str_eq, strrchr, strip_slashes}
use osmud.Outside.{Effect}
use osmud.Utils.{strcmpi}
use osmud.DhcpEvent.{DhcpEvent, create_sig_url_from_mud_url, create_storage_location}
use osmud.Comms.{get_open_mud_file}
use osmud.MudParser.Info.{create_mfi}
use osmud.MudParser.Keys.{key_of, new_state}
use osmud.MudParser.Fill.{
  process_key, increment_state, set_ace_type, modify_at, modify_last, update_acl, update_ace,
  update_from, update_to, set_name, set_type,
}
use osmud.MudParser.{process_json, process_string, get_mud_file_acl, parse_mud_file}
use osmud.OpenWrt.{
  install_firewall_ip_rule, install_dns_rule, firewall_command, remove_firewall_ip_rule,
  get_action_string, get_protocol_name, get_protocol_family, commit_and_apply_firewall_rules,
  remove_rule_command, dns_rule_line, install_mud_db_device_entry, create_entry_command,
  verify_cms_signature, verify_command,
}
use osmud.MudManager.Access.{
  process_from_access, process_to_access, from_rule, to_rule, resolve_dns_entry_to_ip,
}
use osmud.MudManager.{
  execute_new_dhcp_action, execute_mud_device, execute_mud_with_dhcp_context, apply_mud_file,
  locate, validate_mud_file_with_sig,
}
use osmud.MudManager.Fetched.{Added, Fetching}
use osmud.MudManager.Gate.{Verified, execute_new_dhcp_action-Verified}
use osmud.Tests.Samples.{blank_event, calm, globals, json_c, value_text}

abbrev device : DhcpEvent
device = record blank_event {
  ip_address = some (codes "10.0.0.7");
  mac_address = some (codes "c8:e0:eb:19:01:8d");
  mud_file_url = some (codes "http://m.org/pi.json");
}

abbrev event_of : Outcome (DhcpEvent × List Effect) → DhcpEvent
event_of (ok (e, t)) = e
event_of (fault x) = blank_event

abbrev trace_of : Outcome (DhcpEvent × List Effect) → List Effect
trace_of (ok (e, t)) = t
trace_of (fault x) = []

run : Outcome (DhcpEvent × List Effect)
unfolding execute_new_dhcp_action execute_mud_device execute_mud_with_dhcp_context locate
    validate_mud_file_with_sig create_sig_url_from_mud_url create_storage_location strrchr
    strip_slashes get_open_mud_file install_mud_db_device_entry create_entry_command
    verify_cms_signature verify_command parse_mud_file process_json process_string process_key
    increment_state set_ace_type modify_at modify_last update_acl update_ace update_from update_to
    set_name set_type key_of new_state str_eq create_mfi value_text apply_mud_file get_mud_file_acl
    process_from_access process_to_access from_rule to_rule resolve_dns_entry_to_ip
    install_firewall_ip_rule install_dns_rule firewall_command remove_firewall_ip_rule
    get_action_string get_protocol_name get_protocol_family commit_and_apply_firewall_rules
    remove_rule_command dns_rule_line snprintf shown strcmpi
run = execute_new_dhcp_action calm json_c globals device []

execute_new_dhcp_action-Verified_example :
    Added (Fetching (locate globals device)) [] (trace_of run)
    ⊎ Verified calm (locate globals device) [] (trace_of run)
unfolding run
execute_new_dhcp_action-Verified_example =
    execute_new_dhcp_action-Verified calm json_c globals device (codes "http://m.org/pi.json") []
      {e = event_of run} refl refl refl
