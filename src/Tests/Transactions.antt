-- ===== src/Tests/Transactions.antt =====
-- Whole events on the router.
use osmud.Prelude.{ℕ, none, some, Option, List, [], ◌∷◌, ◌++◌, ◌≡◌, refl, ok, arith}
use osmud.CString.Tokens.{words_from, words, split}
use osmud.CString.Decimal.{digits, decimal}
use osmud.CString.{Bytes, codes, shown, has, str_eq, snprintf}
use osmud.OpenWrt.{
  verify_command, dash_for_null, mud_db_created_file, create_entry_command, remove_firewall_ip_rule,
  install_firewall_ip_rule, get_action_string, commit_and_apply_firewall_rules, firewall_command,
  remove_rule_command, get_protocol_name, get_protocol_family,
}
use osmud.Utils.{strcmpi}
use osmud.MudManager.NewDevice.{IsReachable, checked, located}
use osmud.MudManager.Plan.{action_of}
use osmud.MudManager.Access.{to_rule, build_port_range, from_rule}
use osmud.Scripts.Firewall.{second_field, first_field, rule_index, matching}
use osmud.Tests.Router.{
  routed-RunsScripts, starts_with, occurs_in, option_lines, rule_lines, is_own, router,
  router_tools, routed, other_section,
}
use osmud.Scripts.Indices.{others, indices}
use osmud.Scripts.Machine.{run_program, run_reading, run_command_text, replay}
use osmud.Scripts.Database.{create_entry_with, create_mud_db_entry}
use osmud.Scripts.Whole.{execute_open_mud_dhcp_action-saved, line_of, IsEnterable, IsRemovable}
use osmud.MudManager.Documents.{acl_named, all_listed}
use osmud.Scripts.Planned.{document_sections}
use osmud.Scripts.Transaction.{reject_section}
use osmud.Outside.{read_file, Effect}
use osmud.DhcpEvent.{DhcpEvent, new_action}
use osmud.MudParser.Info.{create_mfi}
use osmud.MudParser.Values.{JsonC}
use osmud.MudParser.Document.{ace_of, Rule, Document, Fits, encode, from_device, port_range}
use osmud.MudManager.{
  access_loop, finish_rules, close_rules, run_access_lists, apply_mud_file,
  execute_open_mud_dhcp_action, reset_dhcp_counters, reject_all_rule,
}
use osmud.MudManager.Commit.{removal, rejection, finish}
use osmud.Scripts.Shell.{before_paren, read_command, any_byte}
use osmud.Scripts.RoundTrip.{IsWord-of_is_plain}
use osmud.Scripts.Atomic.{apply_mud_file-saved}
use osmud.Scripts.Grown.{rules_at, saved_at, IsInstallable}
use osmud.Tests.Samples.{blank_event, calm, globals, json_c}

abbrev bulb : DhcpEvent
bulb = record blank_event {
  action = new_action;
  ip_address = some (codes "10.0.0.7");
  mac_address = some (codes "c8:e0:eb:19:01:8d");
  host_name = some (codes "bulb");
  mud_file_url = some (codes "https://m.example/bulb.json");
}

-- the run for a file with no rules
abbrev short_run : ℕ → List Effect
short_run retval =
    finish calm globals bulb create_mfi retval
    ∷ rejection calm globals bulb create_mfi
    ∷ removal calm globals bulb create_mfi
    ∷ []

apply_mud_file-saved_example :
    (u : List Effect) × (short_run 0 ≡ finish calm globals bulb create_mfi 0 ∷ u)
    × (saved_at router_tools router calm (short_run 0) ≡ rules_at router_tools router calm u)
    × (rules_at router_tools router calm (short_run 0)
        ≡ saved_at router_tools router calm (short_run 0))
unfolding apply_mud_file run_access_lists close_rules finish_rules access_loop
    remove_firewall_ip_rule install_firewall_ip_rule get_action_string strcmpi
    commit_and_apply_firewall_rules create_mfi any_byte has firewall_command remove_rule_command
    snprintf shown get_protocol_name get_protocol_family str_eq
apply_mud_file-saved_example =
    apply_mud_file-saved router_tools router calm bulb globals create_mfi 0 [] (short_run 0) refl
      (refl, (refl, (refl, tt)))

abbrev out : Rule
out = record {
  name = codes "cl0";
  direction = from_device;
  host = codes "m.example";
  protocol = codes "6";
  ports = port_range (codes "443") (codes "445");
  forwarding = codes "accept";
}

abbrev lamp : Document
lamp = record {
  version = codes "1";
  url = codes "https://m.example/bulb.json";
  from_policy = codes "fr" ∷ [];
  to_policy = codes "fr" ∷ [];
  acls = record { name = codes "fr"; kind = codes "ipv4-acl-type"; rules = out ∷ [] } ∷ [];
}

abbrev ips : Option Bytes → List Bytes
ips host = codes "9.9.9.9" ∷ []

lamp-Fits : Fits lamp
lamp-Fits = record {
  from_fits = omega arith;
  to_fits = omega arith;
  acls_fit = omega arith;
  rules_fit = (omega arith, _);
}

-- the event after the locations are set
abbrev placed : DhcpEvent
placed =
    located routed ips globals lamp bulb (codes "https://m.example") (codes "bulb") (codes "json")

abbrev read_at : List Effect
read_at =
    read_file (codes "/var/mud/bulb.json")
    ∷ checked routed ips globals lamp bulb (codes "https://m.example") (codes "bulb") (codes "json")
        []

reject-IsInstallable : IsInstallable (reject_all_rule placed) (codes "DENY")
unfolding any_byte has shown firewall_command get_protocol_name get_protocol_family str_eq strcmpi
reject-IsInstallable = record {
  plain = record {
    src_ip = IsWord-of_is_plain (codes "10.0.0.7") refl;
    dest_ip = IsWord-of_is_plain (codes "any") refl;
    dest_port = IsWord-of_is_plain (codes "any") refl;
    src_device = IsWord-of_is_plain (codes "lan") refl;
    dest_device = IsWord-of_is_plain (codes "wan") refl;
    rule_name = IsWord-of_is_plain (codes "REJECT-ALL") refl;
    host_name = IsWord-of_is_plain (codes "bulb") refl;
    action_word = IsWord-of_is_plain (codes "DENY") refl;
  };
  fits = omega arith;
}

out_rule-IsInstallable :
    IsInstallable
      (from_rule (ace_of out) none placed (codes "9.9.9.9"))
      (action_of (codes "accept"))
unfolding any_byte has shown firewall_command get_protocol_name get_protocol_family str_eq strcmpi
    action_of from_rule build_port_range snprintf
out_rule-IsInstallable = record {
  plain = record {
    src_ip = IsWord-of_is_plain (codes "10.0.0.7") refl;
    dest_ip = IsWord-of_is_plain (codes "9.9.9.9") refl;
    dest_port = IsWord-of_is_plain (codes "443:445") refl;
    src_device = IsWord-of_is_plain (codes "lan") refl;
    dest_device = IsWord-of_is_plain (codes "wan") refl;
    rule_name = IsWord-of_is_plain (codes "cl0") refl;
    host_name = IsWord-of_is_plain (codes "bulb") refl;
    action_word = IsWord-of_is_plain (codes "ACCEPT") refl;
  };
  fits = omega arith;
}

in_rule-IsInstallable :
    IsInstallable (to_rule (ace_of out) none placed (codes "9.9.9.9")) (action_of (codes "accept"))
unfolding any_byte has shown firewall_command get_protocol_name get_protocol_family str_eq strcmpi
    action_of to_rule build_port_range snprintf
in_rule-IsInstallable = record {
  plain = record {
    src_ip = IsWord-of_is_plain (codes "9.9.9.9") refl;
    dest_ip = IsWord-of_is_plain (codes "10.0.0.7") refl;
    dest_port = IsWord-of_is_plain (codes "443:445") refl;
    src_device = IsWord-of_is_plain (codes "wan") refl;
    dest_device = IsWord-of_is_plain (codes "lan") refl;
    rule_name = IsWord-of_is_plain (codes "cl0") refl;
    host_name = IsWord-of_is_plain (codes "bulb") refl;
    action_word = IsWord-of_is_plain (codes "ACCEPT") refl;
  };
  fits = omega arith;
}

placed-IsRemovable : IsRemovable router_tools router routed placed is_own read_at
unfolding any_byte has shown remove_rule_command is_own str_eq matching rule_lines option_lines
    occurs_in starts_with rule_index indices decimal digits split first_field second_field replay
    run_command_text run_reading run_program read_command before_paren words words_from
    create_entry_command snprintf create_mud_db_entry create_entry_with verify_command
placed-IsRemovable = record {
  ip_word = IsWord-of_is_plain (codes "10.0.0.7") refl;
  mac_word = IsWord-of_is_plain (codes "c8:e0:eb:19:01:8d") refl;
  fits = omega arith;
  once = refl;
  few = omega arith;
}

lamp-IsReachable : IsReachable routed placed
unfolding run_command_text run_reading run_program read_command before_paren words words_from
    snprintf verify_command any_byte has shown str_eq
lamp-IsReachable = record {
  opens = λ t e. refl;
  fetches = λ t url output verify_peer. refl;
  signed = λ t. refl;
}

placed-IsEnterable : IsEnterable router_tools router routed globals placed
unfolding any_byte has shown create_entry_command mud_db_created_file dash_for_null
placed-IsEnterable = record {
  plain = record {
    file_word = IsWord-of_is_plain (codes "/var/mudmudStateFile.txt") refl;
    ip_word = IsWord-of_is_plain (codes "10.0.0.7") refl;
    mac_word = IsWord-of_is_plain (codes "c8:e0:eb:19:01:8d") refl;
    url_word = IsWord-of_is_plain (codes "https://m.example/bulb.json") refl;
    local_word = IsWord-of_is_plain (codes "/var/mud/bulb.json") refl;
    host_word = IsWord-of_is_plain (codes "bulb") refl;
  };
  short = omega arith;
}

-- the rule of the other device is the one that stays
others_stay : others is_own (rules_at router_tools router routed read_at) ≡ other_section ∷ []
unfolding any_byte has shown is_own str_eq others replay run_command_text run_reading run_program
    read_command before_paren words words_from create_entry_command snprintf create_mud_db_entry
    create_entry_with verify_command
others_stay = refl

abbrev reader : JsonC
reader = record json_c { tokener_parse = λ text. encode lamp }

execute_open_mud_dhcp_action-saved_example :
    (t' : List Effect) × (execute_open_mud_dhcp_action routed reader globals reset_dhcp_counters
        bulb []
      ≡ ok ((record reset_dhcp_counters { new_events = 1 }, placed), t'))
    × (saved_at router_tools router routed t'
        ≡ others is_own (rules_at router_tools router routed read_at)
          ++ (document_sections ips placed lamp
              ++ (reject_section ips globals placed lamp router_tools router routed ∷ [])))
    × (rules_at router_tools router routed t' ≡ saved_at router_tools router routed t')
    × ((before : List Bytes) × ((replay router_tools router t').files
            (codes "/var/mudmudStateFile.txt")
          ≡ before ++ (line_of router_tools router routed placed ∷ [])))
unfolding has reset_dhcp_counters str_eq all_listed acl_named mud_db_created_file
execute_open_mud_dhcp_action-saved_example =
    execute_open_mud_dhcp_action-saved router_tools router routed ips globals lamp reader
      reset_dhcp_counters bulb (codes "https://m.example") (codes "bulb") (codes "json")
      (codes "{}") is_own [] refl refl refl refl refl (λ t host. (refl, omega arith)) lamp-Fits
      lamp-IsReachable refl refl refl routed-RunsScripts
      ((((out_rule-IsInstallable, tt), tt), ((in_rule-IsInstallable, tt), tt)), tt)
      reject-IsInstallable placed-IsRemovable placed-IsEnterable
