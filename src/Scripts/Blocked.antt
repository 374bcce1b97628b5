-- ===== src/Scripts/Blocked.antt =====
-- A document with an ace without ports: none of its rules gets into force.
use mathlib.Core.Path.{ap₂}
use mathlib.Core.List.{append_assoc, append_cancel_right}
use osmud.Prelude.{
  ltb, ℕ, ◌<◌, Bool, true, false, ◌&&◌, ◌||◌, Option, none, some, List, [], ◌∷◌, ◌++◌, ◌≡◌, refl,
  sym, ap, ◌∙◌, All, ok, arith, if◌then◌else◌, ◌==◌, length,
}
use osmud.CString.{Bytes, codes}
use osmud.Outside.{Env, Effect, resolve}
use osmud.DhcpEvent.{DhcpEvent}
use osmud.MudParser.Document.{Rule, Acl, Document, ace_of, info_of}
use osmud.OpenWrt.{FirewallRule, firewall_command, command, buf_size}
use osmud.MudManager.{apply_mud_file}
use osmud.MudManager.Access.{Globals, from_rule, to_rule}
use osmud.MudManager.Session.{clean, clean-append}
use osmud.MudManager.Commit.{removal, rejection}
use osmud.MudManager.Documents.{all_listed, acl_named}
use osmud.MudManager.Plan.{
  Maker, action_of, plan_addresses, plan_rule, plan_rules, plan_acl, plan_names, plan,
}
use osmud.MudManager.Planned.{IsSteady}
use osmud.MudManager.Pipeline.{transaction, apply_mud_file-Carried}
use osmud.Scripts.Shell.{any_byte, is_special}
use osmud.Scripts.Machine.{World, Tools, RunsScripts, replay}
use osmud.Scripts.Grown.{rules_at, saved_at}
use osmud.Scripts.Planned.{acl_named-All}
use osmud.Scripts.Atomic.{is_literal, apply_mud_file-saved}
use osmud.Scripts.Ports.{
  rule_blocks, rules_block, acl_blocks, names_block, document_blocks, IsShort, TakesPorts,
  from_rule-TakesPorts, to_rule-TakesPorts,
}
use osmud.Scripts.Refused.{is_any, run_effect-no_ports}

and_false : (q : Bool) → (q && false) ≡ false
and_false true = refl
and_false false = refl

-- the result where a command of the session did not return 0
not_clean :
    (names first session : Bool)
    → session ≡ false
    → ◌≡◌ {A = ℕ} (if names && (first && session) then 0 else 1) 1
not_clean names first session h = ground (arith, h)

module _ (ips : Option Bytes → List Bytes) (event : DhcpEvent) (g : Globals) {S : Type 0}
    (tools : Tools S) (w : World S) (env : Env) (runs : RunsScripts tools w env) where
  -- From the effects `u` to `v`; where `blocked`, a command did not return 0.
  record Part (u v : List Effect) (blocked : Bool) : Type 0 where
    added : List Effect
    trace : v ≡ added ++ u
    fails : blocked ≡ true → clean env added u ≡ false

  Part-refl : (u : List Effect) → Part u u false
  Part-refl u = record { added = []; trace = refl; fails = λ h. cc }

  either_false :
      (a b p q : Bool)
      → (a ≡ true → p ≡ false)
      → (b ≡ true → q ≡ false)
      → (a || b) ≡ true
      → (q && p) ≡ false
  either_false true b p q f h e = rw (f refl) (and_false q)
  either_false false b p q f h e = rw (h e) refl

  Part-trans : {t u v : List Effect} {a b : Bool} → Part t u a → Part u v b → Part t v (a || b)
  Part-trans {t} {u} {v} {a} {b} x y = record {
    added = y.added ++ x.added;
    trace = y.trace ∙ ap (λ l. y.added ++ l) x.trace ∙ sym (append_assoc y.added x.added t);
    fails = λ h.
        clean-append env y.added x.added t
        ∙ either_false a b (clean env x.added t) (clean env y.added (x.added ++ t)) x.fails
            (λ e. ap (clean env y.added) (sym x.trace) ∙ y.fails e) h;
  }

  Part-weaken :
      {u v : List Effect} {a : Bool} (b : Bool) → (b ≡ true → a ≡ true) → Part u v a → Part u v b
  Part-weaken b f x = record { added = x.added; trace = x.trace; fails = λ h. x.fails (f h) }

  -- any effect
  Part-effect : (e : Effect) (u : List Effect) → Part u (e ∷ u) false
  Part-effect e u = record { added = e ∷ []; trace = refl; fails = λ h. cc }

  -- the command of a rule
  Part-command :
      (r : FirewallRule) (action : Bytes) (any : Bool) (u : List Effect)
      → (any ≡ true → r.dest_port ≡ codes "(null):(null)")
      → any_byte is_special (firewall_command r action) ≡ false
      → length (firewall_command r action) < buf_size
      → Part u (command (firewall_command r action) ∷ u) any
  unfolding clean
  Part-command r action any u ports literal fits = record {
    added = command (firewall_command r action) ∷ [];
    trace = refl;
    fails = λ h.
        let ran = run_effect-no_ports tools r action (replay tools w u) (ports h) literal fits in
        rw (runs u _ ∙ ap (λ (p : ℕ × World S). p.0 == 0) ran) refl;
  }

  plan_addresses-Part :
      (make : Maker) (takes : TakesPorts ips event make) (r : Rule) (addresses : List Bytes)
      (u : List Effect)
      → All
          (λ ip.
            (any_byte is_special
                (firewall_command (make (ace_of r) none event ip) (action_of r.forwarding))
              ≡ false)
            × (length (firewall_command (make (ace_of r) none event ip) (action_of r.forwarding))
                < buf_size))
          addresses
      → Part u
          (plan_addresses ips g event
            (make (ace_of r) none event)
            (action_of r.forwarding)
            addresses
            u)
          (is_any r.ports && ltb 0 (length addresses))
  unfolding plan_addresses
  plan_addresses-Part make takes r [] u h =
      Part-weaken (is_any r.ports && false) (λ e. ground (arith, e)) (Part-refl u)
  plan_addresses-Part make takes r (ip ∷ more) u ((literal, fits), hs) =
      Part-weaken (is_any r.ports && ltb 0 (length (ip ∷ more))) (λ e. ground (arith, e))
        (Part-trans
          (Part-command (make (ace_of r) none event ip) (action_of r.forwarding) (is_any r.ports) u
            (takes r ip) literal fits)
          (plan_addresses-Part make takes r more _ hs))

  plan_rule-Part :
      (make : Maker) (takes : TakesPorts ips event make) (r : Rule) (u : List Effect)
      → IsShort ips event make r
      → Part u (plan_rule ips g event make r u) (rule_blocks ips event r)
  unfolding plan_rule
  plan_rule-Part make takes r u h =
      Part-trans (Part-trans (Part-effect (resolve (some r.host)) u) (Part-effect _ _))
        (plan_addresses-Part make takes r (ips (some r.host)) _ h)

  plan_rules-Part :
      (make : Maker) (takes : TakesPorts ips event make) (rules : List Rule) (u : List Effect)
      → All (IsShort ips event make) rules
      → Part u (plan_rules ips g event make rules u) (rules_block ips event rules)
  unfolding plan_rules rules_block
  plan_rules-Part make takes [] u h = Part-refl u
  plan_rules-Part make takes (r ∷ rules) u (h, hs) =
      Part-trans (plan_rule-Part make takes r u h) (plan_rules-Part make takes rules _ hs)

  plan_acl-Part :
      (make : Maker) (takes : TakesPorts ips event make) (a : Option Acl) (u : List Effect)
      → ((b : Acl) → a ≡ some b → All (IsShort ips event make) b.rules)
      → Part u (plan_acl ips g event make a u) (acl_blocks ips event a)
  unfolding plan_acl
  plan_acl-Part make takes none u h = Part-refl u
  plan_acl-Part make takes (some a) u h = plan_rules-Part make takes a.rules u (h a refl)

  plan_names-Part :
      (make : Maker) (takes : TakesPorts ips event make) (acls : List Acl) (names : List Bytes)
      (u : List Effect)
      → All (λ a. All (IsShort ips event make) a.rules) acls
      → Part u (plan_names ips g event make acls names u) (names_block ips event acls names)
  unfolding plan_names names_block
  plan_names-Part make takes acls [] u h = Part-refl u
  plan_names-Part make takes acls (name ∷ names) u h =
      Part-trans
        (plan_acl-Part make takes (acl_named name acls) u
          (λ b. acl_named-All (λ a. All (IsShort ips event make) a.rules) name acls b h))
        (plan_names-Part make takes acls names _ h)

  plan-Part :
      (d : Document) (u : List Effect)
      → All (λ a. All (IsShort ips event from_rule) a.rules) d.acls
      → All (λ a. All (IsShort ips event to_rule) a.rules) d.acls
      → Part u (plan ips g event d u) (document_blocks ips event d)
  unfolding plan
  plan-Part d u from to =
      Part-trans
        (plan_names-Part from_rule (from_rule-TakesPorts ips event) d.acls d.from_policy u from)
        (plan_names-Part to_rule (to_rule-TakesPorts ips event) d.acls d.to_policy _ to)

  -- Where every host keeps at most 50 addresses and a command returns 0 exactly if its script does,
  -- a document whose policies name an acl with a rule for any port, to a host with an address, is
  -- not carried out: the result is 1, the rules are rolled back, and they and what is saved of them
  -- are what was saved before. The commands for the rules are shorter than the buffer, and no
  -- command up to the end of the run has a byte that is special for the shell.
  pub apply_mud_file-any_port :
      (d : Document) (t : List Effect)
      → IsSteady ips g event env
      → document_blocks ips event d ≡ true
      → All (λ a. All (IsShort ips event from_rule) a.rules) d.acls
      → All (λ a. All (IsShort ips event to_rule) a.rules) d.acls
      → All (λ e. is_literal e ≡ true) (transaction env ips g event d 1 t)
      → (apply_mud_file env g (info_of d) event t ≡ ok (1, transaction env ips g event d 1 t))
        × (saved_at tools w env (transaction env ips g event d 1 t) ≡ saved_at tools w env t)
        × (rules_at tools w env (transaction env ips g event d 1 t) ≡ saved_at tools w env t)
  unfolding clean
  apply_mud_file-any_port d t steady blocks from to literal =
      let base = removal env g event (info_of d) ∷ t in
      let part = plan-Part d base from to in
      let (retval, t', ran, c) = apply_mud_file-Carried env ips g event d t steady in
      let same = append_cancel_right part.added c.session base (sym part.trace ∙ c.planned) in
      let failed = ap (λ l. clean env l base) (sym same) ∙ part.fails blocks in
      let one : retval ≡ 1 =
        c.result
        ∙ not_clean (all_listed d d.from_policy && all_listed d d.to_policy)
            (env.status (c.session ++ base) (rejection env g event (info_of d)) == 0)
            (clean env c.session base) failed in
      let shown : t' ≡ transaction env ips g event d 1 t =
        c.trace ∙ ap (λ n. transaction env ips g event d n t) one in
      let whole = ran ∙ ap₂ (λ n l. ok (n, l)) one shown in
      let (u, _, saved, rules) =
        apply_mud_file-saved tools w env event g (info_of d) 1 t (transaction env ips g event d 1 t)
          whole literal in
      (whole, saved, rules ∙ saved)
