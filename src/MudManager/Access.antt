-- ===== src/MudManager/Access.antt =====
-- src/mud_manager.c: `processFromAccess`, `processToAccess` and the resolution of DNS names.
use osmud.Prelude.{
  ℕ, zero, suc, Bool, true, false, Option, none, some, List, [], ◌∷◌, ◌++◌, out_of_bounds, Outcome,
  ok, fault, null_dereference, if◌then◌else◌, ◌==◌, ltb, length,
}
use osmud.CString.{Bytes, codes, shown, snprintf}
use osmud.Outside.{Env, Exec, lookup_host, lift, pure, crash, ◌>>=◌, ◌>>◌}
use osmud.DhcpEvent.{DhcpEvent}
use osmud.MudParser.Info.{AceType, acldns, AceEntry, AclEntry}
use osmud.OpenWrt.{FirewallRule, install_firewall_ip_rule, install_dns_rule}

-- the globals of src/osmud.c that the manager reads
pub record Globals : Type 0 where
  pub dns_white_list_file : Bytes
  pub mud_file_data_directory : Bytes
  pub no_fail_on_mud_validation : Bool

abbrev pub lan_device_name : Bytes
lan_device_name = codes "lan"

abbrev pub wan_device_name : Bytes
wan_device_name = codes "wan"

abbrev pub max_dns_resolutions : ℕ
max_dns_resolutions = 50

-- `ipCount` is the length of the list.
pub record DomainResolutions : Type 0 where
  pub domain_name : Option Bytes
  pub ip_list : List Bytes

-- `PORT_BUF_SIZE`
abbrev pub port_buf_size : ℕ
port_buf_size = 512

unfoldable pub build_port_range : ℕ → AceEntry → Bytes
unfolding shown
build_port_range port_buf_size' ace =
    snprintf port_buf_size' (shown ace.lower_port ++ (b':' ∷ shown ace.upper_port))

-- The loop over the results: each address goes into `ipList` at `ipCount`, which is counted up.
-- The array has 50 elements.
unfoldable pub copy_loop : List Bytes → List Bytes → Outcome (List Bytes)
copy_loop [] ip_list = ok ip_list
copy_loop (address ∷ addresses) ip_list = elim (ltb (length ip_list) max_dns_resolutions) [
  | true ↦ copy_loop addresses (ip_list ++ (address ∷ []))
  | false ↦ fault out_of_bounds
]

-- The results that `getaddrinfo` gave, copied into a struct that starts with none.
unfoldable pub copy_addresses : Option Bytes → List Bytes → Exec (Option DomainResolutions)
unfolding copy_loop
copy_addresses hostname addresses = do
  ip_list ← lift (copy_loop addresses [])
  pure (some (record { domain_name = hostname; ip_list = ip_list }))

unfoldable pub resolved : Option Bytes → Option (List Bytes) → Exec (Option DomainResolutions)
unfolding copy_addresses
resolved hostname none = pure none
resolved hostname (some addresses) = copy_addresses hostname addresses

-- the rule that lets the device reach an address
unfoldable pub from_rule : AceEntry → Option Bytes → DhcpEvent → Bytes → FirewallRule
unfolding build_port_range
from_rule ace acl_type event ip = record {
  src_ip = event.ip_address;
  dest_ip = some ip;
  dest_port = build_port_range port_buf_size ace;
  src_device = lan_device_name;
  dest_device = wan_device_name;
  protocol = ace.protocol;
  rule_name = ace.rule_name;
  fw_action = ace.actions_forwarding;
  acl_type = acl_type;
  host_name = event.host_name;
}

-- the rule that lets an address reach the device
unfoldable pub to_rule : AceEntry → Option Bytes → DhcpEvent → Bytes → FirewallRule
unfolding build_port_range
to_rule ace acl_type event ip = record {
  src_ip = some ip;
  dest_ip = event.ip_address;
  dest_port = build_port_range port_buf_size ace;
  src_device = wan_device_name;
  dest_device = lan_device_name;
  protocol = ace.protocol;
  rule_name = ace.rule_name;
  fw_action = ace.actions_forwarding;
  acl_type = acl_type;
  host_name = event.host_name;
}

-- the test `aceType == ACLDNS`
abbrev pub is_acldns : AceType → Bool
is_acldns acldns = true
is_acldns _ = false

module _ (env : Env) where
  unfoldable pub resolve_dns_entry_to_ip : Option Bytes → Exec (Option DomainResolutions)
  unfolding resolved
  resolve_dns_entry_to_ip hostname = do found ← lookup_host env hostname; resolved hostname found

  -- The inner loop: one rule for each address.
  unfoldable pub install_loop : (Bytes → FirewallRule) → List Bytes → ℕ → Exec ℕ
  install_loop rule [] retval = pure retval
  install_loop rule (ip ∷ ips) retval = do
    action_result ← install_firewall_ip_rule env (rule ip)
    install_loop rule ips (if action_result == 0 then retval else 1)

  module _ (g : Globals) where
    -- What is done with the result of the resolution. Its domain name is read first, so a
    -- resolution that failed is a read through NULL.
    unfoldable pub use_resolution :
        (Bytes → FirewallRule) → DhcpEvent → ℕ → Option DomainResolutions → Exec ℕ
    use_resolution rule event retval none = crash null_dereference
    use_resolution rule event retval (some dns_info) = do
      install_dns_rule env dns_info.domain_name event.ip_address event.mac_address event.host_name
          g.dns_white_list_file
      install_loop rule dns_info.ip_list retval

    -- The body of the outer loop for an ace that names a host.
    unfoldable pub process_dns_ace : (Bytes → FirewallRule) → AceEntry → DhcpEvent → ℕ → Exec ℕ
    unfolding install_loop use_resolution
    process_dns_ace rule ace event retval = do
      resolution ← resolve_dns_entry_to_ip ace.dns_name
      use_resolution rule event retval resolution

    unfoldable pub process_ace : (Bytes → FirewallRule) → AceEntry → DhcpEvent → ℕ → Exec ℕ
    unfolding process_dns_ace
    process_ace rule ace event retval =
        if is_acldns ace.ace_type then process_dns_ace rule ace event retval else pure retval

    -- The outer loop over the first `count` entries.
    unfoldable pub ace_loop :
        (AceEntry → Bytes → FirewallRule) → ℕ → List AceEntry → DhcpEvent → ℕ → Exec ℕ
    ace_loop rule zero aces event retval = pure retval
    ace_loop rule (suc n) [] event retval = crash out_of_bounds
    ace_loop rule (suc n) (ace ∷ aces) event retval = do
      retval' ← process_ace (rule ace) ace event retval
      ace_loop rule n aces event retval'

    unfoldable pub process_from_access : Option Bytes → Option AclEntry → DhcpEvent → Exec ℕ
    unfolding ace_loop process_ace
    process_from_access acl_type none event = pure 1
    process_from_access acl_type (some acl) event =
        ace_loop (λ ace. from_rule ace acl_type event) acl.ace_count acl.ace_list event 0

    unfoldable pub process_to_access : Option Bytes → Option AclEntry → DhcpEvent → Exec ℕ
    unfolding ace_loop process_ace
    process_to_access acl_type none event = pure 1
    process_to_access acl_type (some acl) event =
        ace_loop (λ ace. to_rule ace acl_type event) acl.ace_count acl.ace_list event 0
