-- ===== src/Scripts/Planned.antt =====
-- The sections that a document stands for, and that its plan adds them.
use mathlib.Core.Path.{subst}
use osmud.Prelude.{
  Option, none, some, List, [], ◌∷◌, ◌++◌, ◌≡◌, refl, All, map, Bool-cases, inl, inr, if◌then◌else◌,
}
use osmud.CString.{Bytes, str_eq}
use osmud.Outside.{Env, Effect, resolve}
use osmud.DhcpEvent.{DhcpEvent}
use osmud.MudParser.Document.{Rule, Acl, Document, ace_of}
use osmud.OpenWrt.{FirewallRule}
use osmud.MudManager.Access.{Globals, from_rule, to_rule}
use osmud.MudManager.Documents.{acl_named}
use osmud.MudManager.Plan.{
  Maker, action_of, plan_addresses, plan_rule, plan_rules, plan_acl, plan_names, plan,
}
use osmud.Scripts.Uci.{Section}
use osmud.Scripts.Machine.{World, Tools, RunsScripts}
use osmud.Scripts.Grown.{
  IsInstallable, section_for, Grown, Grown-refl, Grown-trans, Grown-other, Grown-command,
}

pub acl_named-All :
    (P : Acl → Type 0) (name : Bytes) (acls : List Acl) (b : Acl)
    → All P acls
    → acl_named name acls ≡ some b
    → P b
unfolding acl_named
acl_named-All P name [] b h e = cc
acl_named-All P name (a ∷ acls) b (h, hs) e = elim (Bool-cases (str_eq a.name name)) [
  | inl same ↦ let found = rw (same, if◌then◌else◌) at e in subst P (cc) h
  | inr other ↦ acl_named-All P name acls b hs (rw (other, if◌then◌else◌) at e)
]

All-map :
    (P Q : Acl → Type 0) → ((a : Acl) → P a → Q a) → (acls : List Acl) → All P acls → All Q acls
All-map P Q f [] h = tt
All-map P Q f (a ∷ acls) (h, hs) = (f a h, All-map P Q f acls hs)

module _ (ips : Option Bytes → List Bytes) (event : DhcpEvent) where
  -- a section for each address of the host
  abbrev pub rule_sections : Maker → Rule → List Section
  rule_sections make r =
      map (λ ip. section_for (make (ace_of r) none event ip) (action_of r.forwarding))
        (ips (some r.host))

  unfoldable pub rules_sections : Maker → List Rule → List Section
  rules_sections make [] = []
  rules_sections make (r ∷ rules) = rule_sections make r ++ rules_sections make rules

  unfoldable pub acl_sections : Maker → Option Acl → List Section
  unfolding rules_sections
  acl_sections make none = []
  acl_sections make (some a) = rules_sections make a.rules

  unfoldable pub names_sections : Maker → List Acl → List Bytes → List Section
  unfolding acl_sections
  names_sections make acls [] = []
  names_sections make acls (name ∷ names) =
      acl_sections make (acl_named name acls) ++ names_sections make acls names

  -- The sections of a document: for each acl that its policies name, in their order, a section for
  -- each rule and address.
  unfoldable pub document_sections : Document → List Section
  unfolding names_sections
  document_sections d =
      names_sections from_rule d.acls d.from_policy ++ names_sections to_rule d.acls d.to_policy

  -- The command for each address of the rule's host can be installed.
  abbrev pub RuleFits : Maker → Rule → Type 0
  RuleFits make r =
      All (λ ip. IsInstallable (make (ace_of r) none event ip) (action_of r.forwarding))
        (ips (some r.host))

  -- The rules of the acl can be installed, in both directions.
  abbrev pub AclFits : Acl → Type 0
  AclFits a = All (RuleFits from_rule) a.rules × All (RuleFits to_rule) a.rules

  module _ (g : Globals) {S : Type 0} (tools : Tools S) (w : World S) (env : Env)
      (runs : RunsScripts tools w env) where
    plan_addresses-Grown :
        (rule : Bytes → FirewallRule) (action : Bytes) (addresses : List Bytes) (u : List Effect)
        → All (λ ip. IsInstallable (rule ip) action) addresses
        → Grown tools w env u
            (plan_addresses ips g event rule action addresses u)
            (map (λ ip. section_for (rule ip) action) addresses)
    unfolding plan_addresses
    plan_addresses-Grown rule action [] u h = Grown-refl tools w env u
    plan_addresses-Grown rule action (ip ∷ more) u (h, hs) =
        Grown-trans tools w env (Grown-command tools w env (rule ip) action u runs h)
          (plan_addresses-Grown rule action more _ hs)

    plan_rule-Grown :
        (make : Maker) (r : Rule) (u : List Effect)
        → RuleFits make r
        → Grown tools w env u (plan_rule ips g event make r u) (rule_sections make r)
    unfolding plan_rule
    plan_rule-Grown make r u h =
        Grown-trans tools w env
          (Grown-trans tools w env
            (Grown-other tools w env (resolve (some r.host)) u refl
              (tools.other-config (resolve (some r.host)) _ refl))
            (Grown-other tools w env _ (resolve (some r.host) ∷ u) refl
              (tools.other-config _ _ refl)))
          (plan_addresses-Grown _ _ (ips (some r.host)) _ h)

    plan_rules-Grown :
        (make : Maker) (rules : List Rule) (u : List Effect)
        → All (RuleFits make) rules
        → Grown tools w env u (plan_rules ips g event make rules u) (rules_sections make rules)
    unfolding plan_rules rules_sections
    plan_rules-Grown make [] u h = Grown-refl tools w env u
    plan_rules-Grown make (r ∷ rules) u (h, hs) =
        Grown-trans tools w env (plan_rule-Grown make r u h) (plan_rules-Grown make rules _ hs)

    plan_acl-Grown :
        (make : Maker) (a : Option Acl) (u : List Effect)
        → ((b : Acl) → a ≡ some b → All (RuleFits make) b.rules)
        → Grown tools w env u (plan_acl ips g event make a u) (acl_sections make a)
    unfolding plan_acl acl_sections
    plan_acl-Grown make none u h = Grown-refl tools w env u
    plan_acl-Grown make (some a) u h = plan_rules-Grown make a.rules u (h a refl)

    plan_names-Grown :
        (make : Maker) (acls : List Acl) (names : List Bytes) (u : List Effect)
        → All (λ a. All (RuleFits make) a.rules) acls
        → Grown tools w env u
            (plan_names ips g event make acls names u)
            (names_sections make acls names)
    unfolding plan_names names_sections
    plan_names-Grown make acls [] u h = Grown-refl tools w env u
    plan_names-Grown make acls (name ∷ names) u h =
        Grown-trans tools w env
          (plan_acl-Grown make (acl_named name acls) u
            (λ b. acl_named-All (λ a. All (RuleFits make) a.rules) name acls b h))
          (plan_names-Grown make acls names _ h)

    -- What is planned for a document adds its sections.
    pub plan-Grown :
        (d : Document) (u : List Effect)
        → All AclFits d.acls
        → Grown tools w env u (plan ips g event d u) (document_sections d)
    unfolding plan document_sections
    plan-Grown d u h =
        Grown-trans tools w env
          (plan_names-Grown from_rule d.acls d.from_policy u (
            All-map (λ a. AclFits a) (λ a. All (RuleFits from_rule) a.rules) (λ a p. p.0) d.acls h))
          (plan_names-Grown to_rule d.acls d.to_policy _
            (All-map (λ a. AclFits a) (λ a. All (RuleFits to_rule) a.rules) (λ a p. p.1) d.acls h))
