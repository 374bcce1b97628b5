-- ===== src/Tests/Document.antt =====
-- A MUD document on its way from the disk to the commands.
use osmud.Prelude.{ℕ, some, List, [], ◌∷◌, ◌≡◌, refl, arith, ok, Option, none}
use osmud.CString.{Bytes, codes, has, str_eq}
use osmud.Outside.{Effect, read_file}
use osmud.DhcpEvent.{DhcpEvent, new_action}
use osmud.MudParser.Values.{JsonC}
use osmud.MudParser.Document.{
  any_port, port_range, from_device, to_device, Rule, Document, Fits, encode, info_of,
}
use osmud.MudParser.RoundTrip.{parse_mud_file-encode}
use osmud.MudParser.{parse_mud_file}
use osmud.MudManager.Planned.{IsSteady}
use osmud.MudManager.Pipeline.{Carried, entry, execute_mud_with_dhcp_context-Carried}
use osmud.MudManager.Locate.{url_of, locate-url_of}
use osmud.MudManager.{
  execute_mud_with_dhcp_context, locate, reset_dhcp_counters, execute_open_mud_dhcp_action,
}
use osmud.MudManager.NewDevice.{located, checked, execute_open_mud_dhcp_action-Carried}
use osmud.MudManager.Committed.{committed, execute_open_mud_dhcp_action-committed}
use osmud.MudManager.Documents.{all_listed, acl_named}
use osmud.MudParser.Free.{free_mud_file_info}
use osmud.MudParser.Freed.{texts_of, concat_map, free_mud_file_info-info_of}
use osmud.Tests.Samples.{blank_event, calm, globals, json_c}

-- the device talks to one host over the ports from 443 to 445, and the host to the device from any
abbrev out : Rule
out = record {
  name = codes "cl0";
  direction = from_device;
  host = codes "m.example";
  protocol = codes "6";
  ports = port_range (codes "443") (codes "445");
  forwarding = codes "accept";
}

abbrev back : Rule
back = record {
  name = codes "cl1";
  direction = to_device;
  host = codes "m.example";
  protocol = codes "6";
  ports = any_port;
  forwarding = codes "accept";
}

abbrev lightbulb : Document
lightbulb = record {
  version = codes "1";
  url = codes "https://m.example/bulb.json";
  from_policy = codes "fr" ∷ [];
  to_policy = codes "to" ∷ codes "missing" ∷ [];
  acls =
      record { name = codes "fr"; kind = codes "ipv4-acl-type"; rules = out ∷ [] }
      ∷ record { name = codes "to"; kind = codes "ipv4-acl-type"; rules = back ∷ back ∷ [] }
      ∷ [];
}

lightbulb-Fits : Fits lightbulb
lightbulb-Fits = record {
  from_fits = omega arith;
  to_fits = omega arith;
  acls_fit = omega arith;
  rules_fit = (omega arith, (omega arith, _));
}

-- a json-c whose parser always returns the document
abbrev reader : JsonC
reader = record json_c { tokener_parse = λ text. encode lightbulb }

abbrev bulb : DhcpEvent
bulb = record blank_event {
  ip_address = some (codes "10.0.0.7");
  mac_address = some (codes "c8:e0:eb:19:01:8d");
  host_name = some (codes "bulb");
  mud_file_url = some (url_of (codes "https://m.example") (codes "bulb") (codes "json"));
  mud_file_storage_location = some (codes "/var/mud/bulb.json");
}

abbrev addresses : List Bytes
addresses = codes "9.9.9.9" ∷ []

abbrev ips : Option Bytes → List Bytes
ips host = addresses

calm-IsSteady : IsSteady (λ host. addresses) globals bulb calm
calm-IsSteady = λ t host. (refl, omega arith)

parse_mud_file-encode_example :
    parse_mud_file calm reader (some (codes "/var/mud/bulb.json")) []
    ≡ ok (some (info_of lightbulb), read_file (codes "/var/mud/bulb.json") ∷ [])
parse_mud_file-encode_example =
    parse_mud_file-encode reader calm (codes "/var/mud/bulb.json") (codes "{}") [] lightbulb
      lightbulb-Fits refl refl

execute_mud_with_dhcp_context-Carried_example :
    (retval : ℕ) × (t' : List Effect) × (execute_mud_with_dhcp_context calm reader globals bulb []
      ≡ ok (retval, t'))
    × Carried calm
        (λ host. addresses)
        globals
        bulb
        lightbulb
        retval
        (read_file (codes "/var/mud/bulb.json")
          ∷ entry calm (λ host. addresses) globals bulb lightbulb
          ∷ [])
        t'
execute_mud_with_dhcp_context-Carried_example =
    execute_mud_with_dhcp_context-Carried calm (λ host. addresses) globals bulb lightbulb reader
      (codes "/var/mud/bulb.json") (codes "{}") [] calm-IsSteady lightbulb-Fits refl refl refl

locate-url_of_example : locate globals bulb ≡ record bulb {
  mud_file_url = some (codes "https://m.example/bulb.json");
  mud_sig_url = some (codes "https://m.example/bulb.p7s");
  mud_file_storage_location = some (codes "/var/mud/bulb.json");
  mud_sig_file_storage_location = some (codes "/var/mud/bulb.p7s");
}
unfolding has
locate-url_of_example =
    locate-url_of globals bulb (codes "https://m.example") (codes "bulb") (codes "json") refl refl
      refl refl

-- the event of the NEW line
abbrev arrived : DhcpEvent
arrived = record bulb { action = new_action; mud_file_storage_location = none }

execute_open_mud_dhcp_action-Carried_run :
    (retval : ℕ) × (t' : List Effect) × (execute_open_mud_dhcp_action calm reader globals
        reset_dhcp_counters arrived []
      ≡ ok (
        (
          record reset_dhcp_counters { new_events = 1 },
          located calm ips globals lightbulb arrived
              (codes "https://m.example")
              (codes "bulb")
              (codes "json"),
        ),
        entry calm ips globals
              (located calm ips globals lightbulb arrived
                (codes "https://m.example")
                (codes "bulb")
                (codes "json"))
              lightbulb
            ∷ t',
      ))
    × Carried calm ips globals
        (located calm ips globals lightbulb arrived
          (codes "https://m.example")
          (codes "bulb")
          (codes "json"))
        lightbulb
        retval
        (read_file (codes "/var/mud/bulb.json")
          ∷ checked calm ips globals lightbulb arrived
              (codes "https://m.example")
              (codes "bulb")
              (codes "json")
              [])
        t'
unfolding has reset_dhcp_counters
execute_open_mud_dhcp_action-Carried_run =
    execute_open_mud_dhcp_action-Carried calm ips globals lightbulb reader reset_dhcp_counters
      arrived (codes "https://m.example") (codes "bulb") (codes "json") (codes "{}") [] refl refl
      refl refl refl (λ t host. (refl, omega arith)) lightbulb-Fits
      (record {
        opens = λ t e. refl;
        fetches = λ t url output verify_peer. refl;
        signed = λ t. refl;
      })
      refl refl

-- without the name that has no acl
abbrev whole : Document
whole = record lightbulb { to_policy = codes "to" ∷ [] }

whole-Fits : Fits whole
whole-Fits = record {
  from_fits = omega arith;
  to_fits = omega arith;
  acls_fit = omega arith;
  rules_fit = (omega arith, (omega arith, _));
}

execute_open_mud_dhcp_action-committed_example :
    execute_open_mud_dhcp_action calm
      (record json_c { tokener_parse = λ text. encode whole })
      globals
      reset_dhcp_counters
      arrived
      []
    ≡ ok (
      (
        record reset_dhcp_counters { new_events = 1 },
        located calm ips globals whole arrived
            (codes "https://m.example")
            (codes "bulb")
            (codes "json"),
      ),
      committed calm ips globals whole arrived
          (codes "https://m.example")
          (codes "bulb")
          (codes "json")
          [],
    )
unfolding has reset_dhcp_counters str_eq all_listed acl_named
execute_open_mud_dhcp_action-committed_example =
    execute_open_mud_dhcp_action-committed calm ips globals whole
      (record json_c { tokener_parse = λ text. encode whole }) reset_dhcp_counters arrived
      (codes "https://m.example") (codes "bulb") (codes "json") (codes "{}") []
      (record { returns = λ t e. refl; opens = λ t e. refl }) refl refl refl refl refl
      (λ t host. (refl, omega arith)) whole-Fits refl refl refl

free_mud_file_info-info_of_example :
    free_mud_file_info (info_of whole)
    ≡ ok (
        codes "1"
        ∷ codes "https://m.example/bulb.json"
        ∷ codes "fr"
        ∷ codes "to"
        ∷ codes "fr"
        ∷ codes "ipv4-acl-type"
        ∷ codes "accept"
        ∷ codes "m.example"
        ∷ codes "443"
        ∷ codes "6"
        ∷ codes "cl0"
        ∷ codes "445"
        ∷ codes "to"
        ∷ codes "ipv4-acl-type"
        ∷ codes "accept"
        ∷ codes "m.example"
        ∷ codes "6"
        ∷ codes "cl1"
        ∷ codes "accept"
        ∷ codes "m.example"
        ∷ codes "6"
        ∷ codes "cl1"
        ∷ [])
unfolding texts_of concat_map
free_mud_file_info-info_of_example = free_mud_file_info-info_of whole
