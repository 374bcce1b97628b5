-- ===== src/MudParser/Rules.antt =====
-- The scan of the rules of an acl.
use osmud.Prelude.{All-Unit, ℕ, ◌≤◌, some, List, ◌≡◌, refl, ◌∙◌, length, replicate, ok}
use osmud.CString.{Bytes, codes, str_eq}
use osmud.MudParser.Values.{int, string, object, Fields, end, field, JsonC}
use osmud.MudParser.Keys.{Key, key_of, new_state, aces_state}
use osmud.MudParser.Info.{AceEntry, AclEntry, MudFileInfo, acldns, empty_ace}
use osmud.MudParser.Fill.{update_ace, process_key, set_name}
use osmud.MudParser.Document.{
  Ports, any_port, one_port, port_range, Direction, from_device, to_device, Rule, host_key,
  port_key, encode_ports, encode_rule, encode_items, filled, with_ports, ace_of,
}
use osmud.MudParser.Places.{at_acl, at_ace, update_ace-at_ace, increment_state-ace}
use osmud.MudParser.Steps.{
  process_fields-string, process_fields-int, process_fields-object, process_fields-end,
  process_items-filled, process_json-object,
}
use osmud.MudParser.{process_fields, process_items, process_json}

module _ (jc : JsonC) (m : MudFileInfo) (before : List AclEntry) (acl : AclEntry)
    (blank : List AclEntry) where
  module _ (aces room : List AceEntry) where
    -- the file with an ace as the last one of the last acl
    abbrev here : AceEntry → MudFileInfo
    here cur = at_acl m before (at_ace acl aces cur room) blank

    store : (f : AceEntry → AceEntry) (cur : AceEntry) → update_ace f (here cur) ≡ ok (here (f cur))
    store f cur = update_ace-at_ace f m before acl blank aces cur room

    one_port_fields : (p : Bytes) → Fields
    one_port_fields p =
        field (codes "operator") (string (codes "eq")) (field (codes "port") (int p) end)

    range_fields : (lower upper : Bytes) → Fields
    range_fields lower upper =
        field (codes "lower-port") (int lower) (field (codes "upper-port") (int upper) end)

    process_one_port :
        (p : Bytes) (cur : AceEntry)
        → process_fields jc (one_port_fields p) aces_state (here cur)
          ≡ ok (here (with_ports (one_port p) cur))
    unfolding one_port_fields process_key key_of str_eq
    process_one_port p cur =
        process_fields-string jc (codes "operator") Key.other_key (codes "eq") _ aces_state
          (here cur) refl refl
        ∙ process_fields-int jc (codes "port") Key.port p end aces_state (here cur) refl
            (store _ cur)
        ∙ process_fields-end jc aces_state _

    process_range :
        (lower upper : Bytes) (cur : AceEntry)
        → process_fields jc (range_fields lower upper) aces_state (here cur)
          ≡ ok (here (with_ports (port_range lower upper) cur))
    unfolding range_fields process_key key_of str_eq
    process_range lower upper cur =
        process_fields-int jc (codes "lower-port") Key.lower_port lower _ aces_state (here cur) refl
          (store _ cur)
        ∙ process_fields-int jc (codes "upper-port") Key.upper_port upper end aces_state _ refl
            (store _ _)
        ∙ process_fields-end jc aces_state _

    process_ports :
        (d : Direction) (p : Ports) (cur : AceEntry)
        → process_fields jc (encode_ports d p) aces_state (here cur) ≡ ok (here (with_ports p cur))
    unfolding encode_ports new_state str_eq one_port_fields range_fields
    process_ports d any_port cur = process_fields-end jc aces_state (here cur)
    process_ports from_device (one_port p) cur =
        process_fields-object jc (port_key from_device) aces_state (one_port_fields p) end
          aces_state (here cur) refl (process_one_port p cur)
        ∙ process_fields-end jc aces_state _
    process_ports to_device (one_port p) cur =
        process_fields-object jc (port_key to_device) aces_state (one_port_fields p) end aces_state
          (here cur) refl (process_one_port p cur)
        ∙ process_fields-end jc aces_state _
    process_ports from_device (port_range lower upper) cur =
        process_fields-object jc (port_key from_device) aces_state (range_fields lower upper) end
          aces_state (here cur) refl (process_range lower upper cur)
        ∙ process_fields-end jc aces_state _
    process_ports to_device (port_range lower upper) cur =
        process_fields-object jc (port_key to_device) aces_state (range_fields lower upper) end
          aces_state (here cur) refl (process_range lower upper cur)
        ∙ process_fields-end jc aces_state _

    network_fields : Rule → Fields
    network_fields r =
        field (host_key r.direction) (string r.host) (field (codes "protocol") (int r.protocol) end)

    process_network :
        (r : Rule) (cur : AceEntry)
        → process_fields jc (network_fields r) aces_state (here cur)
          ≡ ok (
              here (record cur {
                ace_type = acldns;
                dns_name = some r.host;
                protocol = some r.protocol;
              }))
    unfolding network_fields process_key key_of str_eq
    process_network r cur =
        process_fields-string jc (host_key r.direction) Key.dns_name r.host _ aces_state (here cur)
          (host r.direction) (store _ cur)
        ∙ process_fields-int jc (codes "protocol") Key.protocol r.protocol end aces_state _ refl
            (store _ _)
        ∙ process_fields-end jc aces_state _
      where
        host : (d : Direction) → key_of (host_key d) ≡ Key.dns_name
        host from_device = refl
        host to_device = refl

    matches_fields : Rule → Fields
    unfolding network_fields
    matches_fields r =
        field (codes "ipv4") (object (network_fields r))
          (field (codes "tcp") (object (encode_ports r.direction r.ports)) end)

    process_matches :
        (r : Rule) (cur : AceEntry)
        → process_fields jc (matches_fields r) aces_state (here cur)
          ≡ ok (
              here (
                with_ports r.ports (record cur {
                  ace_type = acldns;
                  dns_name = some r.host;
                  protocol = some r.protocol;
                })))
    unfolding matches_fields new_state str_eq
    process_matches r cur =
        process_fields-object jc (codes "ipv4") aces_state (network_fields r) _ aces_state
          (here cur) refl (process_network r cur)
        ∙ process_fields-object jc (codes "tcp") aces_state (encode_ports r.direction r.ports) end
            aces_state _ refl (process_ports r.direction r.ports _)
        ∙ process_fields-end jc aces_state _

    process_actions :
        (s : Bytes) (cur : AceEntry)
        → process_fields jc (field (codes "forwarding") (string s) end) aces_state (here cur)
          ≡ ok (here (record cur { actions_forwarding = some s }))
    unfolding process_key key_of str_eq
    process_actions s cur =
        process_fields-string jc (codes "forwarding") Key.forwarding s end aces_state (here cur)
          refl (store _ cur)
        ∙ process_fields-end jc aces_state _

    -- The scan of a rule fills the ace that it is at.
    process_rule :
        (r : Rule)
        → process_json jc (encode_rule r) aces_state (here empty_ace) ≡ ok (here (ace_of r))
    unfolding encode_rule matches_fields network_fields process_key set_name new_state key_of str_eq
    process_rule r =
        process_json-object jc _ aces_state (here empty_ace)
        ∙ process_fields-string jc (codes "name") Key.some_name r.name _ aces_state (here empty_ace)
            refl (store _ empty_ace)
        ∙ process_fields-object jc (codes "matches") aces_state (matches_fields r) _ aces_state _
            refl (process_matches r _)
        ∙ process_fields-object jc (codes "actions") aces_state
            (field (codes "forwarding") (string r.forwarding) end) end aces_state _ refl
            (process_actions r.forwarding _)
        ∙ process_fields-end jc aces_state _

  -- The scan of the rules of an acl fills an entry for each, where there is room for them.
  pub process_rules :
      (rules : List Rule) (room : ℕ)
      → length rules ≤ room
      → process_items jc (encode_items encode_rule rules) aces_state (
          at_acl m before (record acl { ace_list = replicate room empty_ace; ace_count = 0 }) blank)
        ≡ ok (
            at_acl m before
              (record acl {
                ace_list = filled room empty_ace ace_of rules;
                ace_count = length rules;
              })
              blank)
  process_rules rules room h =
      process_items-filled jc aces_state
        (λ aces count. at_acl m before (record acl { ace_list = aces; ace_count = count }) blank)
        empty_ace encode_rule ace_of (λ r. Unit)
        (λ r _ aces room.
          (_, increment_state-ace m before acl blank aces empty_ace room, process_rule aces room r))
        rules room (All-Unit rules) h
