-- ===== src/MudManager/Rules.antt =====
-- The loops of `processFromAccess` and `processToAccess`, as runs of a session.
use osmud.Prelude.{
  ℕ, zero, suc, Bool, true, false, Option, none, some, List, [], ◌∷◌, ◌≡◌, refl, ok, arith,
  if◌then◌else◌, ◌==◌, Bool-cases, inl, inr, ap,
}
use osmud.CString.{Bytes}
use osmud.Outside.{Env, Effect, exec_bind-eq-ok, ok-pair, lift_bind-eq-ok, call, resolve}
use osmud.DhcpEvent.{DhcpEvent}
use osmud.MudParser.Info.{AceEntry, AclEntry}
use osmud.OpenWrt.{
  FirewallRule, command, firewall_command, get_action_string, install_firewall_ip_rule,
  install_dns_rule,
}
use osmud.MudManager.Access.{
  Globals, DomainResolutions, resolve_dns_entry_to_ip, resolved, install_loop, use_resolution,
  process_dns_ace, process_ace, ace_loop, process_from_access, process_to_access, from_rule,
  to_rule, is_acldns,
}
use osmud.MudManager.Session.{
  RuleEffect, looked_up, noted, let_out, let_in, Ran, Ran-refl, Ran-trans, Ran-silent, Ran-command,
  Ran-missing, Ran-subst,
}

-- was there an acl of the name?
abbrev pub acl_found : Option AclEntry → Bool
acl_found none = false
acl_found (some acl) = true

module _ (env : Env) (g : Globals) (event : DhcpEvent) where
  -- a way to make rules of an ace whose installation is a rule effect
  abbrev IsRule : (AceEntry → Bytes → FirewallRule) → Type 0
  IsRule rule =
      (ace : AceEntry) (ip action : Bytes)
      → get_action_string (rule ace ip).fw_action ≡ ok action
      → RuleEffect event (command (firewall_command (rule ace ip) action))

  pub install_rule-eq-ok :
      (r : FirewallRule) (t : List Effect) {n : ℕ} {t' : List Effect}
      → install_firewall_ip_rule env r t ≡ ok (n, t')
      → (action : Bytes) × (get_action_string r.fw_action ≡ ok action)
        × (n ≡ env.status t (command (firewall_command r action)))
        × (t' ≡ command (firewall_command r action) ∷ t)
  unfolding install_firewall_ip_rule
  install_rule-eq-ok r t {n} {t'} h =
      let (action, known, e) =
        lift_bind-eq-ok (get_action_string r.fw_action)
          (λ action. call env (command (firewall_command r action))) t h in
      (action, known, ground arith, ground arith)

  -- The installation of one rule of an ace.
  install_rule-Ran :
      (rule : AceEntry → Bytes → FirewallRule) (is_rule : IsRule rule) (ace : AceEntry) (ip : Bytes)
      (retval : ℕ) (t : List Effect) {n : ℕ} {t' : List Effect}
      → install_firewall_ip_rule env (rule ace ip) t ≡ ok (n, t')
      → Ran env event t t' retval (if n == 0 then retval else 1) true
  install_rule-Ran rule is_rule ace ip retval t h =
      let (action, known, status, trace) = install_rule-eq-ok (rule ace ip) t h in
      Ran-subst env (ap (λ k. if k == 0 then retval else 1) status, trace)
        (Ran-command env _ t retval (is_rule ace ip action known))

  install_loop-Ran :
      (rule : AceEntry → Bytes → FirewallRule) (is_rule : IsRule rule) (ace : AceEntry)
      (ips : List Bytes) (retval : ℕ) (t : List Effect) {n : ℕ} {t' : List Effect}
      → install_loop env (rule ace) ips retval t ≡ ok (n, t')
      → Ran env event t t' retval n true
  unfolding install_loop
  install_loop-Ran rule is_rule ace [] retval t h =
      Ran-subst env (ok-pair h) (Ran-refl env t retval)
  install_loop-Ran rule is_rule ace (ip ∷ ips) retval t h =
      let ((status, u), installed, rest) =
        exec_bind-eq-ok (install_firewall_ip_rule env (rule ace ip))
          (λ status. install_loop env (rule ace) ips (if status == 0 then retval else 1)) t h in
      Ran-trans env (install_rule-Ran rule is_rule ace ip retval t installed)
        (install_loop-Ran rule is_rule ace ips (if status == 0 then retval else 1) u rest)

  install_dns_rule-Ran :
      (target ip mac host : Option Bytes) (file : Bytes) (retval : ℕ) (t : List Effect) {n : ℕ}
      {t' : List Effect}
      → install_dns_rule env target ip mac host file t ≡ ok (n, t')
      → Ran env event t t' retval retval true
  unfolding install_dns_rule
  install_dns_rule-Ran target ip mac host file retval t h =
      Ran-subst env (refl, (ok-pair h).1) (Ran-silent env _ t retval (noted file _) refl)

  resolve-Ran :
      (host : Option Bytes) (retval : ℕ) (t : List Effect) {d : Option DomainResolutions}
      {t' : List Effect}
      → resolve_dns_entry_to_ip env host t ≡ ok (d, t')
      → Ran env event t t' retval retval true
  unfolding resolve_dns_entry_to_ip
  resolve-Ran host retval t {d} {t'} h =
      Ran-subst env (refl, resolved-trace (env.addresses t host) h)
        (Ran-silent env (resolve host) t retval (looked_up host) refl)
    where
      resolved-trace :
          (found : Option (List Bytes))
          → resolved host found (resolve host ∷ t) ≡ ok (d, t')
          → t' ≡ resolve host ∷ t
      resolved-trace none e = (ok-pair e).1
      resolved-trace (some addresses) e = ground arith

  use_resolution-Ran :
      (rule : AceEntry → Bytes → FirewallRule) (is_rule : IsRule rule) (ace : AceEntry)
      (resolution : Option DomainResolutions) (retval : ℕ) (t : List Effect) {n : ℕ}
      {t' : List Effect}
      → use_resolution env g (rule ace) event retval resolution t ≡ ok (n, t')
      → Ran env event t t' retval n true
  unfolding use_resolution
  use_resolution-Ran rule is_rule ace none retval t h = cc
  use_resolution-Ran rule is_rule ace (some info) retval t h =
      let ((status, u), listed, rest) =
        exec_bind-eq-ok
          (install_dns_rule env info.domain_name event.ip_address event.mac_address event.host_name
            g.dns_white_list_file)
          (λ _. install_loop env (rule ace) info.ip_list retval) t h in
      Ran-trans env (install_dns_rule-Ran _ _ _ _ _ retval t listed)
        (install_loop-Ran rule is_rule ace info.ip_list retval u rest)

  process_dns_ace-Ran :
      (rule : AceEntry → Bytes → FirewallRule) (is_rule : IsRule rule) (ace : AceEntry) (retval : ℕ)
      (t : List Effect) {n : ℕ} {t' : List Effect}
      → process_dns_ace env g (rule ace) ace event retval t ≡ ok (n, t')
      → Ran env event t t' retval n true
  unfolding process_dns_ace
  process_dns_ace-Ran rule is_rule ace retval t h =
      let ((resolution, u), looked, rest) =
        exec_bind-eq-ok (resolve_dns_entry_to_ip env ace.dns_name)
          (use_resolution env g (rule ace) event retval) t h in
      Ran-trans env (resolve-Ran ace.dns_name retval t looked)
        (use_resolution-Ran rule is_rule ace resolution retval u rest)

  process_ace-Ran :
      (rule : AceEntry → Bytes → FirewallRule) (is_rule : IsRule rule) (ace : AceEntry) (retval : ℕ)
      (t : List Effect) {n : ℕ} {t' : List Effect}
      → process_ace env g (rule ace) ace event retval t ≡ ok (n, t')
      → Ran env event t t' retval n true
  unfolding process_ace
  process_ace-Ran rule is_rule ace retval t h = elim (Bool-cases (is_acldns ace.ace_type)) [
    | inl e ↦ process_dns_ace-Ran rule is_rule ace retval t (rw e at h)
    | inr e ↦ Ran-subst env (ok-pair (rw e at h)) (Ran-refl env t retval)
  ]

  ace_loop-Ran :
      (rule : AceEntry → Bytes → FirewallRule) (is_rule : IsRule rule) (count : ℕ)
      (aces : List AceEntry) (retval : ℕ) (t : List Effect) {n : ℕ} {t' : List Effect}
      → ace_loop env g rule count aces event retval t ≡ ok (n, t')
      → Ran env event t t' retval n true
  unfolding ace_loop
  ace_loop-Ran rule is_rule zero aces retval t h = Ran-subst env (ok-pair h) (Ran-refl env t retval)
  ace_loop-Ran rule is_rule (suc count) [] retval t h = cc
  ace_loop-Ran rule is_rule (suc count) (ace ∷ aces) retval t h =
      let ((status, u), one, rest) =
        exec_bind-eq-ok (process_ace env g (rule ace) ace event retval)
          (λ status. ace_loop env g rule count aces event status) t h in
      Ran-trans env (process_ace-Ran rule is_rule ace retval t one)
        (ace_loop-Ran rule is_rule count aces status u rest)

  -- `problem == 0` keeps the flag
  problem-flag :
      {t t' : List Effect} {n : ℕ} (retval : ℕ)
      → Ran env event t t' 0 n true
      → Ran env event t t' retval (if n == 0 then retval else 1) true
  problem-flag retval r = record {
    added = r.added;
    trace = r.trace;
    rules = r.rules;
    result = ground (arith, r.result);
  }

  pub process_from_access-Ran :
      (acl_type : Option Bytes) (acl : Option AclEntry) (retval : ℕ) (t : List Effect) {n : ℕ}
      {t' : List Effect}
      → process_from_access env g acl_type acl event t ≡ ok (n, t')
      → Ran env event t t' retval (if n == 0 then retval else 1) (acl_found acl)
  unfolding process_from_access from_rule
  process_from_access-Ran acl_type none retval t h =
      Ran-subst env (ap (λ k. if k == 0 then retval else 1) (ok-pair h).0, (ok-pair h).1)
        (Ran-missing env t retval)
  process_from_access-Ran acl_type (some acl) retval t h = problem-flag retval (
      ace_loop-Ran (λ ace. from_rule ace acl_type event)
        (λ ace ip action known. let_out ace acl_type ip action known) acl.ace_count acl.ace_list 0 t
        h)

  pub process_to_access-Ran :
      (acl_type : Option Bytes) (acl : Option AclEntry) (retval : ℕ) (t : List Effect) {n : ℕ}
      {t' : List Effect}
      → process_to_access env g acl_type acl event t ≡ ok (n, t')
      → Ran env event t t' retval (if n == 0 then retval else 1) (acl_found acl)
  unfolding process_to_access to_rule
  process_to_access-Ran acl_type none retval t h =
      Ran-subst env (ap (λ k. if k == 0 then retval else 1) (ok-pair h).0, (ok-pair h).1)
        (Ran-missing env t retval)
  process_to_access-Ran acl_type (some acl) retval t h = problem-flag retval (
      ace_loop-Ran (λ ace. to_rule ace acl_type event)
        (λ ace ip action known. let_in ace acl_type ip action known) acl.ace_count acl.ace_list 0 t
        h)
