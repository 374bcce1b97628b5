-- ===== src/MudManager/Plan.antt =====
-- The commands that a document stands for, where every host keeps its addresses.
use osmud.Prelude.{none, some, Option, List, [], ◌∷◌, if◌then◌else◌}
use osmud.CString.{Bytes, codes}
use osmud.Outside.{Effect, resolve, append_line}
use osmud.DhcpEvent.{DhcpEvent}
use osmud.MudParser.Info.{AceEntry}
use osmud.MudParser.Document.{Rule, Acl, Document, ace_of}
use osmud.OpenWrt.{FirewallRule, command, firewall_command, same_ignoring_case, dns_rule_line}
use osmud.MudManager.Access.{Globals, from_rule, to_rule}
use osmud.MudManager.Documents.{acl_named}

-- The action of a rule.
unfoldable pub action_of : Bytes → Bytes
action_of text =
    if same_ignoring_case text (codes "reject")
    then codes "REJECT"
    else if same_ignoring_case text (codes "accept")
    then codes "ACCEPT"
    else codes "DENY"

-- how a document's ace makes a rule for an address
abbrev pub Maker : Type 0
Maker = AceEntry → Option Bytes → DhcpEvent → Bytes → FirewallRule

module _ (ips : Option Bytes → List Bytes) (g : Globals) (event : DhcpEvent) where
  -- one command for each address
  unfoldable pub plan_addresses :
      (Bytes → FirewallRule) → Bytes → List Bytes → List Effect → List Effect
  plan_addresses rule action [] t = t
  plan_addresses rule action (ip ∷ more) t =
      plan_addresses rule action more (command (firewall_command (rule ip) action) ∷ t)

  -- The host is looked up and noted in the white list, and then there are its rules.
  unfoldable pub plan_rule : Maker → Rule → List Effect → List Effect
  unfolding plan_addresses
  plan_rule make r t =
      plan_addresses (make (ace_of r) none event) (action_of r.forwarding) (ips (some r.host)) (
        append_line g.dns_white_list_file
          (dns_rule_line (some r.host) event.ip_address event.mac_address event.host_name)
        ∷ resolve (some r.host)
        ∷ t)

  unfoldable pub plan_rules : Maker → List Rule → List Effect → List Effect
  plan_rules make [] t = t
  plan_rules make (r ∷ rules) t = plan_rules make rules (plan_rule make r t)

  unfoldable pub plan_acl : Maker → Option Acl → List Effect → List Effect
  plan_acl make none t = t
  plan_acl make (some a) t = plan_rules make a.rules t

  unfoldable pub plan_names : Maker → List Acl → List Bytes → List Effect → List Effect
  plan_names make acls [] t = t
  plan_names make acls (name ∷ names) t =
      plan_names make acls names (plan_acl make (acl_named name acls) t)

  -- The effects of a document on top of others, the newest first: the rules of the acls that its
  -- policies name, in their order, those for the device first and those for the hosts then.
  unfoldable pub plan : Document → List Effect → List Effect
  unfolding plan_names
  plan d t = plan_names to_rule d.acls d.to_policy (plan_names from_rule d.acls d.from_policy t)
