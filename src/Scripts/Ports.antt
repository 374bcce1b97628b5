-- ===== src/Scripts/Ports.antt =====
-- The documents that have a rule for any port, and the rules that are made of its ace.
use osmud.Prelude.{
  ltb, ◌<◌, Bool, true, false, ◌&&◌, ◌||◌, Option, none, some, List, [], ◌∷◌, ◌≡◌, refl, All,
  length,
}
use osmud.CString.{Bytes, codes, snprintf, shown}
use osmud.DhcpEvent.{DhcpEvent}
use osmud.MudParser.Document.{Rule, Acl, Document, Ports, any_port, one_port, port_range, ace_of}
use osmud.OpenWrt.{firewall_command, buf_size}
use osmud.MudManager.Access.{from_rule, to_rule, build_port_range}
use osmud.MudManager.Documents.{acl_named}
use osmud.MudManager.Plan.{Maker, action_of}
use osmud.Scripts.Shell.{any_byte, is_special}
use osmud.Scripts.Refused.{is_any}

module _ (ips : Option Bytes → List Bytes) (event : DhcpEvent) where
  -- Is the rule for any port, with an address that a command is made for?
  abbrev pub rule_blocks : Rule → Bool
  rule_blocks r = is_any r.ports && ltb 0 (length (ips (some r.host)))

  unfoldable pub rules_block : List Rule → Bool
  rules_block [] = false
  rules_block (r ∷ rules) = rule_blocks r || rules_block rules

  abbrev pub acl_blocks : Option Acl → Bool
  acl_blocks none = false
  acl_blocks (some a) = rules_block a.rules

  unfoldable pub names_block : List Acl → List Bytes → Bool
  names_block acls [] = false
  names_block acls (name ∷ names) = acl_blocks (acl_named name acls) || names_block acls names

  -- Does a policy of the document name an acl that has a rule for any port?
  abbrev pub document_blocks : Document → Bool
  document_blocks d = names_block d.acls d.from_policy || names_block d.acls d.to_policy

  -- The commands of the rule are short enough and have no byte that is special for the shell.
  abbrev pub IsShort : Maker → Rule → Type 0
  IsShort make r =
      All
        (λ ip.
          (any_byte is_special
              (firewall_command (make (ace_of r) none event ip) (action_of r.forwarding))
            ≡ false)
          × (length (firewall_command (make (ace_of r) none event ip) (action_of r.forwarding))
              < buf_size))
        (ips (some r.host))

  -- a maker that takes the ports of the ace
  abbrev pub TakesPorts : Maker → Type 0
  TakesPorts make =
      (r : Rule) (ip : Bytes)
      → is_any r.ports ≡ true
      → (make (ace_of r) none event ip).dest_port ≡ codes "(null):(null)"

  pub from_rule-TakesPorts : TakesPorts from_rule
  unfolding from_rule build_port_range snprintf shown
  from_rule-TakesPorts r ip h = go r.ports h
    where
      go :
          (p : Ports)
          → is_any p ≡ true
          → (from_rule (ace_of (record r { ports = p })) none event ip).dest_port
            ≡ codes "(null):(null)"
      go any_port e = refl
      go (one_port q) e = cc
      go (port_range lower upper) e = cc

  pub to_rule-TakesPorts : TakesPorts to_rule
  unfolding to_rule build_port_range snprintf shown
  to_rule-TakesPorts r ip h = go r.ports h
    where
      go :
          (p : Ports)
          → is_any p ≡ true
          → (to_rule (ace_of (record r { ports = p })) none event ip).dest_port
            ≡ codes "(null):(null)"
      go any_port e = refl
      go (one_port q) e = cc
      go (port_range lower upper) e = cc
