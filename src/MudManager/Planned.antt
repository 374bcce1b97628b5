-- ===== src/MudManager/Planned.antt =====
-- What is run for the file of a document is what is planned for it, where every host keeps its
-- addresses.
use osmud.Prelude.{
  ℕ, ◌≤◌, true, none, some, Option, List, [], ◌∷◌, ◌++◌, map, ◌≡◌, refl, ap, ◌∙◌, arith, length, ok,
  if◌then◌else◌, ◌==◌,
}
use osmud.CString.{Bytes}
use osmud.Outside.{Env, Exec, Effect, resolve, append_line, exec_bind-ok, lift-ok, ◌>>=◌, lift}
use osmud.DhcpEvent.{DhcpEvent}
use osmud.MudParser.Info.{AceEntry, AclEntry, MudAccessList}
use osmud.MudParser.Document.{
  Ports, any_port, one_port, port_range, Rule, Acl, Document, ace_of, access_of, info_of,
}
use osmud.MudParser.{get_mud_file_acl}
use osmud.OpenWrt.{
  FirewallRule, command, firewall_command, get_action_string, dns_rule_line,
  install_firewall_ip_rule, install_dns_rule,
}
use osmud.MudManager.Access.{
  Globals, is_acldns, max_dns_resolutions, from_rule, to_rule, resolve_dns_entry_to_ip,
  install_loop, use_resolution, process_dns_ace, process_ace, ace_loop, process_from_access,
  process_to_access,
}
use osmud.MudManager.Returns.{resolve-some}
use osmud.MudManager.Documents.{acl_named, entry_of, get_mud_file_acl-info_of}
use osmud.MudManager.{access_loop, run_access_lists}
use osmud.MudManager.Plan.{
  action_of, Maker, plan_addresses, plan_rule, plan_rules, plan_acl, plan_names, plan,
}

-- The computation returns, and leaves these effects.
abbrev pub Leaves {ℓ} : {A : Type ℓ} → Exec A → List Effect → List Effect → Type ℓ
Leaves {A = A} m t u = (a : A) × (m t ≡ ok (a, u))

pub Leaves-bind {ℓ κ} :
    {A : Type ℓ} {B : Type κ} (m : Exec A) (f : A → Exec B) (t : List Effect) {u v : List Effect}
    → Leaves m t u
    → ((a : A) → Leaves (f a) u v)
    → Leaves (m >>= f) t v
Leaves-bind m f t (a, e) h = let (b, d) = h a in (b, exec_bind-ok m f t e ∙ d)

-- the same, where the value is known
pub Leaves-after {ℓ κ} :
    {A : Type ℓ} {B : Type κ} (m : Exec A) (f : A → Exec B) (t : List Effect) {a : A}
    {u v : List Effect}
    → m t ≡ ok (a, u)
    → Leaves (f a) u v
    → Leaves (m >>= f) t v
Leaves-after m f t e (b, d) = (b, exec_bind-ok m f t e ∙ d)

get_action_string-action_of : (text : Bytes) → get_action_string (some text) ≡ ok (action_of text)
unfolding get_action_string action_of
get_action_string-action_of text = ground arith

module _ (ips : Option Bytes → List Bytes) (g : Globals) (event : DhcpEvent) where
  module _ (env : Env) where
    -- Every host has the addresses `ips`, at all times, and they fit `ipList`.
    abbrev pub IsSteady : Type 0
    IsSteady =
        (t : List Effect) (host : Option Bytes)
        → (env.addresses t host ≡ some (ips host)) × (length (ips host) ≤ max_dns_resolutions)

    install_rule-plan :
        (r : FirewallRule) (text : Bytes) (t : List Effect)
        → r.fw_action ≡ some text
        → Leaves
            (install_firewall_ip_rule env r)
            t
            (command (firewall_command r (action_of text)) ∷ t)
    unfolding install_firewall_ip_rule
    install_rule-plan r text t e =
        Leaves-after (lift (get_action_string r.fw_action)) _ t
          (lift-ok _ t (ap get_action_string e ∙ get_action_string-action_of text)) (_, refl)

    install_loop-plan :
        (rule : Bytes → FirewallRule) (text : Bytes)
        → ((ip : Bytes) → (rule ip).fw_action ≡ some text)
        → (addresses : List Bytes) (retval : ℕ) (t : List Effect)
        → Leaves
            (install_loop env rule addresses retval)
            t
            (plan_addresses ips g event rule (action_of text) addresses t)
    unfolding install_loop plan_addresses
    install_loop-plan rule text same [] retval t = (retval, refl)
    install_loop-plan rule text same (ip ∷ more) retval t =
        Leaves-bind (install_firewall_ip_rule env (rule ip)) _ t
          (install_rule-plan (rule ip) text t (same ip))
          (λ status.
            install_loop-plan rule text same more (if status == 0 then retval else 1)
              (command (firewall_command (rule ip) (action_of text)) ∷ t))

    is_acldns-ace_of : (r : Rule) → is_acldns (ace_of r).ace_type ≡ true
    is_acldns-ace_of r = go r.ports
      where
        go : (p : Ports) → is_acldns (ace_of (record r { ports = p })).ace_type ≡ true
        go any_port = refl
        go (one_port p) = refl
        go (port_range lower upper) = refl

    dns_name-ace_of : (r : Rule) → (ace_of r).dns_name ≡ some r.host
    dns_name-ace_of r = go r.ports
      where
        go : (p : Ports) → (ace_of (record r { ports = p })).dns_name ≡ some r.host
        go any_port = refl
        go (one_port p) = refl
        go (port_range lower upper) = refl

    module _ (steady : IsSteady) where
      process_dns_ace-plan :
          (rule : Bytes → FirewallRule) (r : Rule)
          → ((ip : Bytes) → (rule ip).fw_action ≡ some r.forwarding)
          → (ace : AceEntry) → ace.dns_name ≡ some r.host
          → (retval : ℕ) (t : List Effect)
          → Leaves (process_dns_ace env g rule ace event retval) t (
              plan_addresses ips g event rule (action_of r.forwarding) (ips (some r.host)) (
                append_line g.dns_white_list_file
                  (dns_rule_line (some r.host) event.ip_address event.mac_address event.host_name)
                ∷ resolve (some r.host)
                ∷ t))
      unfolding process_dns_ace use_resolution install_dns_rule
      process_dns_ace-plan rule r same ace named retval t =
          let (found, few) = steady t (some r.host) in
          Leaves-after (resolve_dns_entry_to_ip env ace.dns_name)
            (use_resolution env g rule event retval) t
            (ap (λ h. resolve_dns_entry_to_ip env h t) named
              ∙ resolve-some env (some r.host) t (ips (some r.host)) found few)
            (install_loop-plan rule r.forwarding same (ips (some r.host)) retval _)

      ace_loop-plan :
          (make : Maker)
          → ((r : Rule) (ip : Bytes)
              → (make (ace_of r) none event ip).fw_action ≡ some r.forwarding)
          → (rules : List Rule) (blank : List AceEntry) (retval : ℕ) (t : List Effect)
          → Leaves
              (ace_loop env g
                (λ ace. make ace none event)
                (length rules)
                (map ace_of rules ++ blank)
                event
                retval)
              t
              (plan_rules ips g event make rules t)
      unfolding ace_loop process_ace plan_rules plan_rule
      ace_loop-plan make same [] blank retval t = (retval, refl)
      ace_loop-plan make same (r ∷ rules) blank retval t =
          Leaves-bind (process_ace env g (make (ace_of r) none event) (ace_of r) event retval) _ t
            (rw (is_acldns-ace_of r) (
              process_dns_ace-plan (make (ace_of r) none event) r (same r) (ace_of r)
                (dns_name-ace_of r) retval t))
            (λ retval'.
              ace_loop-plan make same rules blank retval' (plan_rule ips g event make r t))

      process_from_access-plan :
          (a : Option Acl) (t : List Effect)
          → Leaves
              (process_from_access env g none (entry_of a) event)
              t
              (plan_acl ips g event from_rule a t)
      unfolding process_from_access plan_acl from_rule
      process_from_access-plan none t = (_, refl)
      process_from_access-plan (some a) t = ace_loop-plan from_rule (λ r ip. refl) a.rules _ 0 t

      process_to_access-plan :
          (a : Option Acl) (t : List Effect)
          → Leaves
              (process_to_access env g none (entry_of a) event)
              t
              (plan_acl ips g event to_rule a t)
      unfolding process_to_access plan_acl to_rule
      process_to_access-plan none t = (_, refl)
      process_to_access-plan (some a) t = ace_loop-plan to_rule (λ r ip. refl) a.rules _ 0 t

      access_loop-plan :
          (process : Option Bytes → Option AclEntry → Exec ℕ) (make : Maker)
          → ((a : Option Acl) (t : List Effect)
              → Leaves (process none (entry_of a)) t (plan_acl ips g event make a t))
          → (d : Document) (names : List Bytes) (blank : List MudAccessList) (retval : ℕ)
            (t : List Effect)
          → Leaves
              (access_loop process (info_of d) (length names) (map access_of names ++ blank) retval)
              t
              (plan_names ips g event make d.acls names t)
      unfolding access_loop plan_names
      access_loop-plan process make runs d [] blank retval t = (retval, refl)
      access_loop-plan process make runs d (name ∷ names) blank retval t =
          Leaves-after (lift (get_mud_file_acl (some name) (info_of d))) _ t
            (lift-ok _ t (get_mud_file_acl-info_of name d))
            (Leaves-bind (process none (entry_of (acl_named name d.acls))) _ t
              (runs (acl_named name d.acls) t)
              (λ problem.
                access_loop-plan process make runs d names blank
                  (if problem == 0 then retval else 1)
                  (plan_acl ips g event make (acl_named name d.acls) t)))

      -- The two loops over the access lists of a document's file do what is planned.
      pub run_access_lists-plan :
          (d : Document) (t : List Effect)
          → Leaves (run_access_lists env g (info_of d) event) t (plan ips g event d t)
      unfolding run_access_lists plan info_of
      run_access_lists-plan d t =
          Leaves-bind
            (access_loop (λ type acl. process_from_access env g type acl event) (info_of d)
              (length d.from_policy) (map access_of d.from_policy ++ _) 0)
            _ t
            (access_loop-plan (λ type acl. process_from_access env g type acl event) from_rule
              process_from_access-plan d d.from_policy _ 0 t)
            (λ retval.
              access_loop-plan (λ type acl. process_to_access env g type acl event) to_rule
                process_to_access-plan d d.to_policy _ retval
                (plan_names ips g event from_rule d.acls d.from_policy t))
