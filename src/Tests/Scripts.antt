-- ===== src/Tests/Scripts.antt =====
-- The scripts at concrete states of the router.
use osmud.Prelude.{none, some, [], ◌∷◌, ◌++◌, ◌≡◌, refl, ok, arith, replicate}
use osmud.CString.{codes, shown, has, str_eq}
use osmud.CString.Tokens.{split}
use osmud.CString.Decimal.{decimal, digits}
use osmud.DhcpEvent.{DhcpEvent, del_action}
use osmud.OpenWrt.{
  FirewallRule, firewall_command, command, remove_entry_command, remove_rule_command,
  create_entry_command, mud_db_created_file, mud_db_removed_file, get_protocol_family,
  get_protocol_name,
}
use osmud.MudManager.{execute_open_mud_dhcp_action, reset_dhcp_counters}
use osmud.Scripts.Shell.{any_byte}
use osmud.Scripts.Firewall.{
  delete_rules, rules_to_delete, matching, rule_index, first_field, second_field,
}
use osmud.Scripts.Database.{with_lines}
use osmud.Scripts.RoundTrip.{IsPlainRule, IsWord-of_is_plain, variables_of}
use osmud.Scripts.Install.{section_of}
use osmud.Scripts.Installed.{run_effect-section_of}
use osmud.Scripts.Entries.{run_effect-create_entry_command}
use osmud.Scripts.Indices.{others, indices}
use osmud.Scripts.Removal.{delete_rules-eleven}
use osmud.Scripts.Removed.{deletion, execute_open_mud_dhcp_action-deletion}
use osmud.Scripts.Grown.{rules_at, saved_at}
use osmud.Scripts.Machine.{run_effect, replay}
use osmud.Tests.Samples.{blank_event, globals, json_c}
use osmud.Tests.Router.{
  Config, router, router_tools, routed, list_uci, own_section, other_section, is_own, rule_lines,
  occurs_in, starts_with, option_lines,
}

abbrev pub bulb_leaves : DhcpEvent
bulb_leaves = record blank_event {
  action = del_action;
  ip_address = some (codes "10.0.0.7");
  mac_address = some (codes "c8:e0:eb:19:01:8d");
  host_name = some (codes "bulb");
}

abbrev bulb_rule : FirewallRule
bulb_rule = record {
  src_ip = some (codes "10.0.0.7");
  dest_ip = some (codes "9.9.9.9");
  dest_port = codes "443:445";
  src_device = codes "lan";
  dest_device = codes "wan";
  protocol = some (codes "6");
  rule_name = some (codes "cl0");
  fw_action = some (codes "accept");
  acl_type = none;
  host_name = some (codes "bulb");
}

bulb_rule-IsPlainRule : IsPlainRule bulb_rule (codes "ACCEPT")
unfolding any_byte has shown
bulb_rule-IsPlainRule = record {
  src_ip = IsWord-of_is_plain (codes "10.0.0.7") refl;
  dest_ip = IsWord-of_is_plain (codes "9.9.9.9") refl;
  dest_port = IsWord-of_is_plain (codes "443:445") refl;
  src_device = IsWord-of_is_plain (codes "lan") refl;
  dest_device = IsWord-of_is_plain (codes "wan") refl;
  rule_name = IsWord-of_is_plain (codes "cl0") refl;
  host_name = IsWord-of_is_plain (codes "bulb") refl;
  action_word = IsWord-of_is_plain (codes "ACCEPT") refl;
}

run_effect-section_of_example :
    (s : Config) × (run_effect router_tools
        (command (firewall_command bulb_rule (codes "ACCEPT")))
        router
      ≡ (0, record { config = s; files = router.files }))
    × (s.rules ≡ router.config.rules ++ (section_of (variables_of bulb_rule (codes "ACCEPT")) ∷ []))
    × (s.saved ≡ router.config.saved)
unfolding firewall_command get_protocol_family get_protocol_name str_eq
run_effect-section_of_example =
    run_effect-section_of router_tools bulb_rule (codes "ACCEPT") router bulb_rule-IsPlainRule
      (omega arith)

run_effect-create_entry_command_example :
    run_effect router_tools
      (command (
        create_entry_command
          (codes "/var/mud/")
          (some (codes "10.0.0.7"))
          (some (codes "c8:e0:eb:19:01:8d"))
          none
          none
          (some (codes "bulb"))))
      router
    ≡ (
      0,
      record {
        config = router.config;
        files =
            with_lines
              (codes "/var/mud/mudStateFile.txt")
              (codes "10.0.0.7|c8:e0:eb:19:01:8d|-|-|bulb" ∷ [])
              router.files;
      },
    )
unfolding create_entry_command any_byte has mud_db_created_file
run_effect-create_entry_command_example =
    run_effect-create_entry_command router_tools (codes "/var/mud/") (some (codes "10.0.0.7"))
      (some (codes "c8:e0:eb:19:01:8d")) none none (some (codes "bulb")) router
      (record {
        file_word = IsWord-of_is_plain (codes "/var/mud/mudStateFile.txt") refl;
        ip_word = IsWord-of_is_plain (codes "10.0.0.7") refl;
        mac_word = IsWord-of_is_plain (codes "c8:e0:eb:19:01:8d") refl;
        url_word = IsWord-of_is_plain (codes "-") refl;
        local_word = IsWord-of_is_plain (codes "-") refl;
        host_word = IsWord-of_is_plain (codes "bulb") refl;
      })
      (omega arith)

abbrev full : Config
full = record { rules = replicate 9 other_section ++ (own_section ∷ own_section ∷ []); saved = [] }

delete_rules-eleven_example :
    (delete_rules list_uci (rules_to_delete list_uci occurs_in (codes "10.0.0.7") full) full).rules
    ≡ replicate 9 other_section ++ (own_section ∷ [])
unfolding is_own str_eq matching rule_lines option_lines occurs_in starts_with rule_index indices
    decimal digits split first_field second_field
delete_rules-eleven_example =
    delete_rules-eleven list_uci occurs_in (codes "10.0.0.7") is_own full
      (replicate 9 other_section) own_section own_section refl refl
      (refl, (refl, (refl, (refl, (refl, (refl, (refl, (refl, (refl, tt))))))))) refl refl refl

execute_open_mud_dhcp_action-deletion_example :
    (execute_open_mud_dhcp_action routed json_c globals reset_dhcp_counters bulb_leaves []
      ≡ ok (
        (record reset_dhcp_counters { delete_events = 1 }, bulb_leaves),
        deletion router_tools globals bulb_leaves [],
      ))
    × (saved_at router_tools router routed (deletion router_tools globals bulb_leaves [])
        ≡ other_section ∷ [])
    × (rules_at router_tools router routed (deletion router_tools globals bulb_leaves [])
        ≡ other_section ∷ [])
    × ((replay router_tools router (deletion router_tools globals bulb_leaves [])).files
        ≡ router.files)
unfolding is_own str_eq matching rule_lines option_lines occurs_in starts_with rule_index indices
    decimal digits split first_field second_field any_byte has shown others reset_dhcp_counters
    replay mud_db_removed_file remove_rule_command remove_entry_command
execute_open_mud_dhcp_action-deletion_example =
    execute_open_mud_dhcp_action-deletion router_tools router routed json_c globals
      reset_dhcp_counters bulb_leaves is_own [] refl (IsWord-of_is_plain (codes "10.0.0.7") refl)
      (IsWord-of_is_plain (codes "c8:e0:eb:19:01:8d") refl)
      (IsWord-of_is_plain (codes "/var/mud/mudStateFile.txt") refl) (omega arith) (omega arith) refl
      (omega arith)
