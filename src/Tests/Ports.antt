-- ===== src/Tests/Ports.antt =====
-- A document with a rule for any port on the router.
use osmud.Prelude.{some, Option, List, [], ◌∷◌, ◌≡◌, refl, ok, arith}
use osmud.CString.{Bytes, codes, has, shown, snprintf, str_eq}
use osmud.Utils.{strcmpi}
use osmud.DhcpEvent.{DhcpEvent}
use osmud.MudParser.Document.{Rule, Document, from_device, any_port, info_of}
use osmud.OpenWrt.{firewall_command, get_protocol_name, get_protocol_family, remove_rule_command}
use osmud.MudManager.{apply_mud_file}
use osmud.MudManager.Access.{from_rule, to_rule, build_port_range}
use osmud.MudManager.Documents.{acl_named}
use osmud.MudManager.Pipeline.{transaction}
use osmud.MudManager.Plan.{
  action_of, plan, plan_names, plan_acl, plan_rules, plan_rule, plan_addresses,
}
use osmud.Scripts.Shell.{any_byte}
use osmud.Scripts.Grown.{rules_at, saved_at}
use osmud.Scripts.Ports.{names_block, rules_block}
use osmud.Scripts.Blocked.{apply_mud_file-any_port}
use osmud.Tests.Samples.{blank_event, globals}
use osmud.Tests.Router.{router, router_tools, routed, routed-RunsScripts}

abbrev lamp_event : DhcpEvent
lamp_event = record blank_event {
  ip_address = some (codes "10.0.0.7");
  mac_address = some (codes "c8:e0:eb:19:01:8d");
  host_name = some (codes "lamp");
}

abbrev open_rule : Rule
open_rule = record {
  name = codes "cl0";
  direction = from_device;
  host = codes "m.example";
  protocol = codes "6";
  ports = any_port;
  forwarding = codes "accept";
}

abbrev open_document : Document
open_document = record {
  version = codes "1";
  url = codes "https://m.example/lamp.json";
  from_policy = codes "fr" ∷ [];
  to_policy = [];
  acls = record { name = codes "fr"; kind = codes "ipv4-acl-type"; rules = open_rule ∷ [] } ∷ [];
}

abbrev one_address : Option Bytes → List Bytes
one_address host = codes "9.9.9.9" ∷ []

apply_mud_file-any_port_example :
    (apply_mud_file routed globals (info_of open_document) lamp_event []
      ≡ ok (1, transaction routed one_address globals lamp_event open_document 1 []))
    × (saved_at router_tools router routed
          (transaction routed one_address globals lamp_event open_document 1 [])
        ≡ saved_at router_tools router routed [])
    × (rules_at router_tools router routed
          (transaction routed one_address globals lamp_event open_document 1 [])
        ≡ saved_at router_tools router routed [])
unfolding any_byte has shown firewall_command get_protocol_name get_protocol_family str_eq strcmpi
    action_of from_rule to_rule build_port_range snprintf remove_rule_command acl_named names_block
    rules_block plan plan_names plan_acl plan_rules plan_rule plan_addresses
apply_mud_file-any_port_example =
    apply_mud_file-any_port one_address lamp_event globals router_tools router routed
      routed-RunsScripts open_document [] (λ t host. (refl, omega arith)) refl
      ((((refl, omega arith), tt), tt), tt) ((((refl, omega arith), tt), tt), tt)
      (refl, (refl, (refl, (refl, (refl, (refl, tt))))))
