-- ===== src/MudParser/Document.antt =====
-- MUD documents as a manufacturer means them: how they are written as JSON (RFC 8520, as in
-- example/ieft-draft.json), and the `MudFileInfo` that stands for them.
use osmud.Prelude.{ℕ, ◌-◌, ◌≤◌, none, some, List, [], ◌∷◌, ◌++◌, map, length, replicate, All}
use osmud.CString.{Bytes, codes}
use osmud.MudParser.Values.{Json, int, string, object, array, Fields, end, field, Items, nil, cons}
use osmud.MudParser.Info.{
  AceEntry, AclEntry, MudAccessList, MudFileInfo, acldns, empty_ace, empty_acl, empty_access,
  create_mfi, max_aces, max_acls, max_device_policies,
}

-- The ports of a rule.
pub data Ports : Type 0 where
  any_port : Ports
  one_port : Bytes → Ports
  port_range : Bytes → Bytes → Ports

-- What a rule is about: traffic of the device to a host, or of a host to the device.
pub data Direction : Type 0 where
  from_device to_device : Direction

pub record Rule : Type 0 where
  pub name : Bytes
  pub direction : Direction
  pub host : Bytes
  pub protocol : Bytes
  pub ports : Ports
  pub forwarding : Bytes

pub record Acl : Type 0 where
  pub name : Bytes
  pub kind : Bytes
  pub rules : List Rule

pub record Document : Type 0 where
  pub version : Bytes
  pub url : Bytes
  pub from_policy : List Bytes
  pub to_policy : List Bytes
  pub acls : List Acl

-- The document is within the bounds of the arrays.
pub record Fits (d : Document) : Type 0 where
  pub from_fits : length d.from_policy ≤ max_device_policies
  pub to_fits : length d.to_policy ≤ max_device_policies
  pub acls_fit : length d.acls ≤ max_acls
  pub rules_fit : All (λ (a : Acl). length a.rules ≤ max_aces) d.acls

-- An object with one member.
abbrev pub member : Bytes → Json → Json
member key val = object (field key val end)

unfoldable pub encode_items {ℓ} : {A : Type ℓ} → (A → Json) → List A → Items
encode_items enc [] = nil
encode_items enc (a ∷ more) = cons (enc a) (encode_items enc more)

abbrev pub host_key : Direction → Bytes
host_key from_device = codes "ietf-acldns:dst-dnsname"
host_key to_device = codes "ietf-acldns:src-dnsname"

abbrev pub port_key : Direction → Bytes
port_key from_device = codes "destination-port"
port_key to_device = codes "source-port"

unfoldable pub encode_ports : Direction → Ports → Fields
encode_ports d any_port = end
encode_ports d (one_port p) =
    field (port_key d)
      (object (field (codes "operator") (string (codes "eq")) (field (codes "port") (int p) end)))
      end
encode_ports d (port_range lower upper) =
    field (port_key d)
      (object (field (codes "lower-port") (int lower) (field (codes "upper-port") (int upper) end)))
      end

encode_network : Rule → Json
encode_network r =
    object
      (field (host_key r.direction) (string r.host) (field (codes "protocol") (int r.protocol) end))

encode_matches : Rule → Json
encode_matches r = object (
    field (codes "ipv4") (encode_network r)
      (field (codes "tcp") (object (encode_ports r.direction r.ports)) end))

unfoldable pub encode_rule : Rule → Json
unfolding encode_matches encode_network encode_ports
encode_rule r = object (
    field (codes "name") (string r.name) (
      field (codes "matches") (encode_matches r)
        (field (codes "actions") (member (codes "forwarding") (string r.forwarding)) end)))

unfoldable pub encode_acl : Acl → Json
encode_acl a = object (
    field (codes "name") (string a.name) (
      field (codes "type") (string a.kind) (
        field (codes "aces") (member (codes "ace") (array (encode_items encode_rule a.rules)))
          end)))

unfoldable pub encode_name : Bytes → Json
encode_name name = member (codes "name") (string name)

unfoldable pub encode_policy : List Bytes → Json
encode_policy names =
    member (codes "access-lists")
      (member (codes "access-list") (array (encode_items encode_name names)))

unfoldable pub encode : Document → Json
encode d = object (
    field (codes "ietf-mud:mud")
      (object (
        field (codes "mud-version") (int d.version) (
          field (codes "mud-url") (string d.url) (
            field (codes "from-device-policy") (encode_policy d.from_policy)
              (field (codes "to-device-policy") (encode_policy d.to_policy) end)))))
      (field (codes "ietf-access-control-list:acls")
        (member (codes "acl") (array (encode_items encode_acl d.acls))) end))

-- The entries that stand for the parts of a document.
abbrev pub with_ports : Ports → AceEntry → AceEntry
with_ports any_port ace = ace
with_ports (one_port p) ace = record ace { upper_port = some p; lower_port = some p }
with_ports (port_range lower upper) ace = record ace {
  lower_port = some lower;
  upper_port = some upper;
}

abbrev pub ace_of : Rule → AceEntry
ace_of r =
    record (with_ports r.ports (record empty_ace {
      ace_type = acldns;
      rule_name = some r.name;
      dns_name = some r.host;
      protocol = some r.protocol;
    })) { actions_forwarding = some r.forwarding }

-- entries, and blank ones up to the size of the array
abbrev pub filled {ℓ κ} : {A : Type ℓ} {B : Type κ} → ℕ → B → (A → B) → List A → List B
filled size blank f xs = map f xs ++ replicate (size - length xs) blank

abbrev pub acl_of : Acl → AclEntry
acl_of a = record {
  acl_name = some a.name;
  acl_type = some a.kind;
  ace_list = filled max_aces empty_ace ace_of a.rules;
  ace_count = length a.rules;
}

abbrev pub access_of : Bytes → MudAccessList
access_of name = record { acl_name = some name; acl_type = none }

unfoldable pub info_of : Document → MudFileInfo
info_of d = record create_mfi {
  mud_version = some d.version;
  mud_url = some d.url;
  from_access_list = filled max_device_policies empty_access access_of d.from_policy;
  from_access_list_count = length d.from_policy;
  to_access_list = filled max_device_policies empty_access access_of d.to_policy;
  to_access_list_count = length d.to_policy;
  acls = filled max_acls empty_acl acl_of d.acls;
  acl_list_count = length d.acls;
}
