-- ===== src/MudManager/Returns.antt =====
-- When carrying out a MUD file ends without a fault: every host resolves, and what the loops read is
-- there.
use osmud.Prelude.{
  ◌∙◌, sym, ℕ, zero, suc, ◌≤◌, Bool, true, false, ◌&&◌, Option, none, some, List, [], ◌∷◌, ◌≡◌,
  refl, Outcome, ok, fault, arith, if◌then◌else◌, ◌==◌, length, Bool-cases, inl, inr,
}
use osmud.CString.{Bytes}
use osmud.Outside.{resolve, ok-pair, Env, Exec, Effect, Returns, Returns-bind, lift}
use osmud.DhcpEvent.{DhcpEvent}
use osmud.MudParser.Info.{AceEntry, AclEntry, MudAccessList, MudFileInfo}
use osmud.MudParser.{get_mud_file_acl}
use osmud.OpenWrt.{
  rollback_firewall_configuration, same_ignoring_case, commit_and_apply_firewall_rules,
  remove_firewall_ip_rule, FirewallRule, install_firewall_ip_rule, install_dns_rule,
  get_action_string,
}
use osmud.MudManager.Access.{
  Globals, DomainResolutions, is_acldns, max_dns_resolutions, resolve_dns_entry_to_ip, install_loop,
  use_resolution, process_dns_ace, process_ace, ace_loop, process_from_access, process_to_access,
  from_rule, to_rule,
}
use osmud.MudManager.Resolution.{resolve_dns_entry_to_ip_lem}
use osmud.MudManager.{
  codes, access_loop, run_access_lists, close_rules, finish_rules, apply_mud_file, reject_all_rule,
}
use osmud.MudManager.Ready.{
  Resolves, is_some, ace_ready, aces_ready, acl_ready, search_ready, names_ready, mud_file_ready,
}

and_parts : (a b : Bool) → (a && b) ≡ true → (a ≡ true) × (b ≡ true)
and_parts a b h = ground arith

one_of :
    (b c : Bool) (x y z : Bytes)
    → (text : Bytes) × ((if b then ok x else if c then ok y else ok z) ≡ ok text)
one_of true c x y z = (x, refl)
one_of false true x y z = (y, refl)
one_of false false x y z = (z, refl)

get_action_string_total :
    (action : Option Bytes)
    → is_some action ≡ true
    → (text : Bytes) × (get_action_string action ≡ ok text)
unfolding get_action_string
get_action_string_total none h = cc
get_action_string_total (some a) h =
    one_of (same_ignoring_case a (codes "reject")) (same_ignoring_case a (codes "accept"))
      (codes "REJECT") (codes "ACCEPT") (codes "DENY")

module _ (env : Env) where
  install_rule-Returns :
      (r : FirewallRule) (t : List Effect)
      → is_some r.fw_action ≡ true
      → Returns (install_firewall_ip_rule env r) t
  unfolding install_firewall_ip_rule
  install_rule-Returns r t h =
      let (action, e) = get_action_string_total r.fw_action h in
      Returns-bind (lift (get_action_string r.fw_action)) _ t ((action, t), rw e)
        (λ a t' _. (_, refl))

  install_loop-Returns :
      (rule : Bytes → FirewallRule)
      → ((ip : Bytes) → is_some (rule ip).fw_action ≡ true)
      → (ips : List Bytes) (retval : ℕ) (t : List Effect)
      → Returns (install_loop env rule ips retval) t
  unfolding install_loop
  install_loop-Returns rule ready [] retval t = ((retval, t), refl)
  install_loop-Returns rule ready (ip ∷ ips) retval t =
      Returns-bind (install_firewall_ip_rule env (rule ip)) _ t
        (install_rule-Returns (rule ip) t (ready ip))
        (λ status t' _. install_loop-Returns rule ready ips (if status == 0 then retval else 1) t')

  pub resolve-some :
      (host : Option Bytes) (t : List Effect) (ips : List Bytes)
      → env.addresses t host ≡ some ips
      → length ips ≤ max_dns_resolutions
      → resolve_dns_entry_to_ip env host t
        ≡ ok (some (record { domain_name = host; ip_list = ips }), resolve host ∷ t)
  resolve-some host t ips e h = resolve_dns_entry_to_ip_lem env host t ∙ rw e (ground arith)

  module _ (resolves : Resolves env) (g : Globals) (event : DhcpEvent) where
    use_resolution-Returns :
        (rule : Bytes → FirewallRule)
        → ((ip : Bytes) → is_some (rule ip).fw_action ≡ true)
        → (info : DomainResolutions) (retval : ℕ) (t : List Effect)
        → Returns (use_resolution env g rule event retval (some info)) t
    unfolding use_resolution install_dns_rule
    use_resolution-Returns rule ready info retval t =
        Returns-bind
          (install_dns_rule env info.domain_name event.ip_address event.mac_address event.host_name
            g.dns_white_list_file)
          _ t (_, refl) (λ _ t' _. install_loop-Returns rule ready info.ip_list retval t')

    process_dns_ace-Returns :
        (rule : Bytes → FirewallRule) (ace : AceEntry)
        → ((ip : Bytes) → is_some (rule ip).fw_action ≡ true)
        → (retval : ℕ) (t : List Effect) → Returns (process_dns_ace env g rule ace event retval) t
    unfolding process_dns_ace resolve_dns_entry_to_ip
    process_dns_ace-Returns rule ace ready retval t =
        let (ips, found, fits) = resolves t ace.dns_name in
        Returns-bind (resolve_dns_entry_to_ip env ace.dns_name)
          (use_resolution env g rule event retval) t (_, resolve-some ace.dns_name t ips found fits)
          (λ d t' e.
            let (same, _) = ok-pair (sym (resolve-some ace.dns_name t ips found fits) ∙ e) in
            rw same (use_resolution-Returns rule ready _ retval t'))

    process_ace-Returns :
        (rule : Bytes → FirewallRule) (ace : AceEntry)
        → ((ip : Bytes) → is_some (rule ip).fw_action ≡ is_some ace.actions_forwarding)
        → ace_ready ace ≡ true
        → (retval : ℕ) (t : List Effect) → Returns (process_ace env g rule ace event retval) t
    unfolding process_ace
    process_ace-Returns rule ace same ready retval t = elim (Bool-cases (is_acldns ace.ace_type)) [
      | inl e ↦ rw e (process_dns_ace-Returns rule ace (λ ip. same ip ∙ (rw e at ready)) retval t)
      | inr e ↦ rw e (_, refl)
    ]

    ace_loop-Returns :
        (rule : AceEntry → Bytes → FirewallRule)
        → ((ace : AceEntry) (ip : Bytes)
            → is_some (rule ace ip).fw_action ≡ is_some ace.actions_forwarding)
        → (count : ℕ) (aces : List AceEntry) (retval : ℕ) (t : List Effect)
        → aces_ready count aces ≡ true
        → Returns (ace_loop env g rule count aces event retval) t
    unfolding ace_loop aces_ready
    ace_loop-Returns rule same zero aces retval t h = (_, refl)
    ace_loop-Returns rule same (suc n) [] retval t h = cc
    ace_loop-Returns rule same (suc n) (ace ∷ aces) retval t h =
        let (one, rest) = and_parts (ace_ready ace) (aces_ready n aces) h in
        Returns-bind (process_ace env g (rule ace) ace event retval) _ t
          (process_ace-Returns (rule ace) ace (same ace) one retval t)
          (λ status t' _. ace_loop-Returns rule same n aces status t' rest)

    process_from_access-Returns :
        (acl_type : Option Bytes) (acl : Option AclEntry) (t : List Effect)
        → acl_ready acl ≡ true
        → Returns (process_from_access env g acl_type acl event) t
    unfolding process_from_access from_rule
    process_from_access-Returns acl_type none t h = (_, refl)
    process_from_access-Returns acl_type (some acl) t h =
        ace_loop-Returns (λ ace. from_rule ace acl_type event) (λ ace ip. refl) acl.ace_count
          acl.ace_list 0 t h

    process_to_access-Returns :
        (acl_type : Option Bytes) (acl : Option AclEntry) (t : List Effect)
        → acl_ready acl ≡ true
        → Returns (process_to_access env g acl_type acl event) t
    unfolding process_to_access to_rule
    process_to_access-Returns acl_type none t h = (_, refl)
    process_to_access-Returns acl_type (some acl) t h =
        ace_loop-Returns (λ ace. to_rule ace acl_type event) (λ ace ip. refl) acl.ace_count
          acl.ace_list 0 t h

    search-ok :
        (o : Outcome (Option AclEntry))
        → search_ready o ≡ true
        → (acl : Option AclEntry) × (o ≡ ok acl) × (acl_ready acl ≡ true)
    search-ok (ok acl) h = (acl, refl, h)
    search-ok (fault e) h = cc

    access_loop-Returns :
        (process : Option Bytes → Option AclEntry → Exec ℕ)
        → ((acl_type : Option Bytes) (acl : Option AclEntry) (t : List Effect)
            → acl_ready acl ≡ true
            → Returns (process acl_type acl) t)
        → (mud_file : MudFileInfo) (count : ℕ) (accesses : List MudAccessList) (retval : ℕ)
          (t : List Effect)
        → names_ready mud_file count accesses ≡ true
        → Returns (access_loop process mud_file count accesses retval) t
    unfolding access_loop names_ready
    access_loop-Returns process total mud_file zero accesses retval t h = (_, refl)
    access_loop-Returns process total mud_file (suc n) [] retval t h = cc
    access_loop-Returns process total mud_file (suc n) (access ∷ rest) retval t h =
        let (one, later) =
          and_parts (search_ready (get_mud_file_acl access.acl_name mud_file))
            (names_ready mud_file n rest) h in
        let (acl, found, ready) = search-ok (get_mud_file_acl access.acl_name mud_file) one in
        rw (found, access_loop)
          (Returns-bind (process access.acl_type acl) _ t (total access.acl_type acl t ready)
            (λ problem t' _.
              access_loop-Returns process total mud_file n rest (if problem == 0 then retval else 1)
                t' later))

    run_access_lists-Returns :
        (mud_file : MudFileInfo) (t : List Effect)
        → mud_file_ready mud_file ≡ true
        → Returns (run_access_lists env g mud_file event) t
    unfolding run_access_lists
    run_access_lists-Returns mud_file t h =
        let (from, to) = and_parts _ _ h in
        Returns-bind
          (access_loop (λ type acl. process_from_access env g type acl event) mud_file
            mud_file.from_access_list_count mud_file.from_access_list 0)
          _ t
          (access_loop-Returns (λ type acl. process_from_access env g type acl event)
            process_from_access-Returns mud_file mud_file.from_access_list_count
            mud_file.from_access_list 0 t from)
          (λ result t' _.
            access_loop-Returns (λ type acl. process_to_access env g type acl event)
              process_to_access-Returns mud_file mud_file.to_access_list_count
              mud_file.to_access_list result t' to)

    finish_rules-Returns : (flag : ℕ) (t : List Effect) → Returns (finish_rules env g flag) t
    unfolding finish_rules commit_and_apply_firewall_rules rollback_firewall_configuration
    finish_rules-Returns flag t = elim (Bool-cases (flag == 0)) [
      | inl e ↦ rw e (_, refl)
      | inr e ↦ rw e (_, refl)
    ]

    pub close_rules-Returns :
        (result : ℕ) (t : List Effect) → Returns (close_rules env g event result) t
    unfolding close_rules
    close_rules-Returns result t =
        Returns-bind (install_firewall_ip_rule env (reject_all_rule event)) _ t
          (install_rule-Returns (reject_all_rule event) t refl)
          (λ status t' _.
            let flag = if status == 0 then result else 1 in
            Returns-bind (finish_rules env g flag) _ t' (finish_rules-Returns flag t')
              (λ k t'' _. ((flag, t''), refl)))

    -- Where every host resolves to at most 50 addresses, carrying out a MUD file returns, if its
    -- lists are as long as their counters say, the acls that they name are looked up without a
    -- fault, and each ace that names a host says what is to be done.
    pub apply_mud_file-Returns :
        (mud_file : MudFileInfo) (t : List Effect)
        → mud_file_ready mud_file ≡ true
        → Returns (apply_mud_file env g mud_file event) t
    unfolding apply_mud_file remove_firewall_ip_rule
    apply_mud_file-Returns mud_file t h =
        Returns-bind (run_access_lists env g mud_file event) _ _
          (run_access_lists-Returns mud_file _ h) (λ result t' _. close_rules-Returns result t')
