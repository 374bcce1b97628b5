-- ===== src/Tests/Manager.antt =====
-- Carrying out a MUD file, and the gate before it.
use osmud.Prelude.{ℕ, some, List, [], ◌∷◌, ◌≡◌, refl, arith, Outcome, ok, fault}
use osmud.CString.{codes, shown, snprintf, str_eq}
use osmud.Outside.{Effect, Returns}
use osmud.Utils.{strcmpi}
use osmud.DhcpEvent.{DhcpEvent}
use osmud.MudParser.Info.{MudFileInfo, create_mfi}
use osmud.MudParser.Keys.{root_state, key_of, new_state}
use osmud.MudParser.Fill.{
  process_key, increment_state, set_ace_type, modify_at, modify_last, update_acl, update_ace,
  update_from, update_to, set_name, set_type,
}
use osmud.MudParser.{process_json, process_string, get_mud_file_acl}
use osmud.OpenWrt.{
  install_firewall_ip_rule, install_dns_rule, firewall_command, remove_firewall_ip_rule,
  get_action_string, get_protocol_name, get_protocol_family, commit_and_apply_firewall_rules,
  remove_rule_command, dns_rule_line,
}
use osmud.MudManager.Access.{
  process_from_access, process_to_access, from_rule, to_rule, resolve_dns_entry_to_ip,
}
use osmud.MudManager.{apply_mud_file}
use osmud.MudManager.Commit.{Applied, apply_mud_file-Applied}
use osmud.MudManager.Ready.{aces_ready, names_ready}
use osmud.MudManager.Returns.{apply_mud_file-Returns}
use osmud.Tests.Samples.{blank_event, calm, globals, document, json_c, value_text}

abbrev file_of : Outcome MudFileInfo → MudFileInfo
file_of (ok m) = m
file_of (fault e) = create_mfi

-- what the parser makes of the document
parsed : MudFileInfo
unfolding process_json process_string process_key increment_state set_ace_type modify_at modify_last
    update_acl update_ace update_from update_to set_name set_type key_of new_state str_eq create_mfi
    value_text
parsed = file_of (process_json json_c document root_state create_mfi)

document_counts :
    (parsed.acl_list_count ≡ 2)
    × (parsed.from_access_list_count ≡ 1)
    × (parsed.to_access_list_count ≡ 1)
unfolding parsed
document_counts = (refl, refl, refl)

abbrev device : DhcpEvent
device = record blank_event {
  ip_address = some (codes "10.0.0.7");
  mac_address = some (codes "c8:e0:eb:19:01:8d");
  host_name = some (codes "pi");
  mud_file_url = some (codes "http://m.org/pi.json");
}

abbrev flag_of : Outcome (ℕ × List Effect) → ℕ
flag_of (ok (n, t)) = n
flag_of (fault e) = 2

abbrev trace_of : Outcome (ℕ × List Effect) → List Effect
trace_of (ok (n, t)) = t
trace_of (fault e) = []

run : Outcome (ℕ × List Effect)
unfolding parsed apply_mud_file get_mud_file_acl process_from_access process_to_access from_rule
    to_rule resolve_dns_entry_to_ip install_firewall_ip_rule install_dns_rule firewall_command
    remove_firewall_ip_rule get_action_string get_protocol_name get_protocol_family
    commit_and_apply_firewall_rules remove_rule_command dns_rule_line snprintf shown strcmpi
run = apply_mud_file calm globals parsed device []

run_returns : run ≡ ok (0, trace_of run)
unfolding run
run_returns = refl

apply_mud_file-Returns_example : Returns (apply_mud_file calm globals parsed device) []
unfolding parsed names_ready aces_ready get_mud_file_acl
apply_mud_file-Returns_example =
    apply_mud_file-Returns calm (λ t host. (codes "9.9.9.9" ∷ [], refl, omega arith)) globals device
      parsed [] refl

parsed_file_run : Applied calm globals device parsed [] (trace_of run) 0
unfolding run
parsed_file_run = apply_mud_file-Applied calm globals device parsed [] refl
