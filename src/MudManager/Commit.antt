-- ===== src/MudManager/Commit.antt =====
-- `executeMudWithDhcpContext` as a transaction: what is run for a MUD file, in which order, and when
-- the rules are committed.
use osmud.Prelude.{
  ap, refl, ◌∙◌, arith, ℕ, zero, suc, Bool, true, false, ◌&&◌, Option, none, some, List, [], ◌∷◌,
  ◌++◌, ◌≡◌, ok, fault, All, if◌then◌else◌, ◌==◌, Bool-cases, inl, inr,
}
use osmud.CString.{Bytes, codes}
use osmud.Outside.{
  pure, ◌>>◌, Env, Exec, Effect, system, exec_bind-eq-ok, lift_bind-eq-ok, ok-pair, ◌>>=◌,
}
use osmud.Utils.{strcmpi}
use osmud.DhcpEvent.{DhcpEvent}
use osmud.MudParser.Info.{AclEntry, MudAccessList, MudFileInfo}
use osmud.MudParser.{get_mud_file_acl}
use osmud.OpenWrt.{
  remove_firewall_ip_rule, install_firewall_ip_rule, get_action_string, command, firewall_command,
  remove_rule_command, uci_firewall_commit_script, uci_firewall_rollback_script,
  commit_and_apply_firewall_rules, rollback_firewall_configuration,
}
use osmud.MudManager.Access.{process_to_access, process_from_access, Globals}
use osmud.MudManager.Session.{RuleEffect, Ran, Ran-refl, Ran-trans, Ran-subst, clean}
use osmud.MudManager.Rules.{process_to_access-Ran, process_from_access-Ran, acl_found}
use osmud.MudManager.{
  run_access_lists, close_rules, apply_mud_file, access_loop, finish_rules, reject_all_rule,
}

-- Is there an acl for each of the first `count` names?
unfoldable pub names_found : MudFileInfo → ℕ → List MudAccessList → Bool
names_found mud_file zero accesses = true
names_found mud_file (suc n) [] = true
names_found mud_file (suc n) (access ∷ accesses) =
    (elim (get_mud_file_acl access.acl_name mud_file) [
      | ok (some _) ↦ true
      | ok none ↦ false
      | fault _ ↦ false
    ])
    && names_found mud_file n accesses

-- Is there an acl for each name in the two access lists?
abbrev pub acls_found : MudFileInfo → Bool
acls_found mud_file =
    names_found mud_file mud_file.from_access_list_count mud_file.from_access_list
    && names_found mud_file mud_file.to_access_list_count mud_file.to_access_list

pub found-names :
    (mud_file : MudFileInfo) (access : MudAccessList) (rest : List MudAccessList) (count : ℕ)
    (acl : Option AclEntry)
    → get_mud_file_acl access.acl_name mud_file ≡ ok acl
    → (acl_found acl && names_found mud_file count rest)
      ≡ names_found mud_file (suc count) (access ∷ rest)
unfolding names_found
found-names mud_file access rest count none h = rw (h, names_found)
found-names mud_file access rest count (some acl) h = rw (h, names_found)

-- the flag after the rejection
closing :
    (status result : ℕ) (found cleaned : Bool)
    → result ≡ (if found && cleaned then 0 else 1)
    → (if status == 0 then result else 1) ≡ (if found && ((status == 0) && cleaned) then 0 else 1)
closing status result found cleaned p = ground arith

module _ (env : Env) (g : Globals) (event : DhcpEvent) (mud_file : MudFileInfo) where
  -- a function for the entries of an access list that only runs rules
  abbrev RunsRules : (Option Bytes → Option AclEntry → Exec ℕ) → Type 0
  RunsRules process =
      (acl_type : Option Bytes) (acl : Option AclEntry) (retval : ℕ) (t : List Effect) (n : ℕ)
      (t' : List Effect)
      → process acl_type acl t ≡ ok (n, t')
      → Ran env event t t' retval (if n == 0 then retval else 1) (acl_found acl)

  access_loop-Ran :
      (process : Option Bytes → Option AclEntry → Exec ℕ) (runs : RunsRules process) (count : ℕ)
      (accesses : List MudAccessList) (retval : ℕ) (t : List Effect) {n : ℕ} {t' : List Effect}
      → access_loop process mud_file count accesses retval t ≡ ok (n, t')
      → Ran env event t t' retval n (names_found mud_file count accesses)
  unfolding access_loop names_found
  access_loop-Ran process runs zero accesses retval t h =
      Ran-subst env (ok-pair h) (Ran-refl env t retval)
  access_loop-Ran process runs (suc count) [] retval t h = cc
  access_loop-Ran process runs (suc count) (access ∷ rest) retval t {n} {t'} h =
      let (acl, found, later) =
        lift_bind-eq-ok (get_mud_file_acl access.acl_name mud_file)
          (λ acl. do
            problem ← process access.acl_type acl
            access_loop process mud_file count rest (if problem == 0 then retval else 1))
          t h in
      let ((problem, u), one, last) =
        exec_bind-eq-ok (process access.acl_type acl)
          (λ problem. access_loop process mud_file count rest (if problem == 0 then retval else 1))
          t later in
      rw (← found-names mud_file access rest count acl found) (
        Ran-trans env (runs access.acl_type acl retval t problem u one)
          (access_loop-Ran process runs count rest (if problem == 0 then retval else 1) u last))

  -- the commands around the session
  abbrev pub removal : Effect
  removal = command (remove_rule_command event.ip_address event.mac_address)

  abbrev pub rejection : Effect
  rejection = command (firewall_command (reject_all_rule event) (codes "DENY"))

  abbrev pub finish : ℕ → Effect
  finish retval =
      system (if retval == 0 then uci_firewall_commit_script else uci_firewall_rollback_script)

  -- What a run for a MUD file did.
  pub record Applied (t t' : List Effect) (retval : ℕ) : Type 0 where
    pub session : List Effect
    pub trace : t' ≡ finish retval ∷ rejection ∷ (session ++ (removal ∷ t))
    pub rules : All (RuleEffect event) session
    pub result :
        retval
        ≡ (if acls_found mud_file && clean env (rejection ∷ session) (removal ∷ t) then 0 else 1)

  finish_rules-eq-ok :
      (retval : ℕ) (t : List Effect) {n : ℕ} {t' : List Effect}
      → finish_rules env g retval t ≡ ok (n, t')
      → t' ≡ finish retval ∷ t
  unfolding finish_rules commit_and_apply_firewall_rules rollback_firewall_configuration
  finish_rules-eq-ok retval t h = elim (Bool-cases (retval == 0)) [
    | inl e ↦ rw e (ok-pair (rw e at h)).1
    | inr e ↦ rw e (ok-pair (rw e at h)).1
  ]

  reject_action : get_action_string (reject_all_rule event).fw_action ≡ ok (codes "DENY")
  unfolding get_action_string strcmpi
  reject_action = refl

  rejection-eq-ok :
      (t : List Effect) {n : ℕ} {t' : List Effect}
      → install_firewall_ip_rule env (reject_all_rule event) t ≡ ok (n, t')
      → (n ≡ env.status t rejection) × (t' ≡ rejection ∷ t)
  unfolding install_firewall_ip_rule
  rejection-eq-ok t h =
      let e = ok-pair (rw (reject_action, install_firewall_ip_rule) at h) in (e.0, e.1)

  run_access_lists-Ran :
      (t : List Effect) {n : ℕ} {t' : List Effect}
      → run_access_lists env g mud_file event t ≡ ok (n, t')
      → Ran env event t t' 0 n (acls_found mud_file)
  unfolding run_access_lists
  run_access_lists-Ran t h =
      let process_from =
        λ (type : Option Bytes) (acl : Option AclEntry). process_from_access env g type acl event in
      let process_to =
        λ (type : Option Bytes) (acl : Option AclEntry). process_to_access env g type acl event in
      let ((result, u), from, to) =
        exec_bind-eq-ok
          (access_loop process_from mud_file mud_file.from_access_list_count
            mud_file.from_access_list 0)
          (λ result.
            access_loop process_to mud_file mud_file.to_access_list_count mud_file.to_access_list
              result)
          t h in
      Ran-trans env
        (access_loop-Ran process_from
          (λ type acl retval u n u' e. process_from_access-Ran env g event type acl retval u e)
          mud_file.from_access_list_count mud_file.from_access_list 0 t from)
        (access_loop-Ran process_to
          (λ type acl retval u n u' e. process_to_access-Ran env g event type acl retval u e)
          mud_file.to_access_list_count mud_file.to_access_list result u to)

  pub close_rules-eq-ok :
      (result : ℕ) (t : List Effect) {retval : ℕ} {t' : List Effect}
      → close_rules env g event result t ≡ ok (retval, t')
      → (retval ≡ (if env.status t rejection == 0 then result else 1))
        × (t' ≡ finish retval ∷ rejection ∷ t)
  unfolding close_rules
  close_rules-eq-ok result t {retval} {t'} h =
      let ((n, u), installed, rest) =
        exec_bind-eq-ok (install_firewall_ip_rule env (reject_all_rule event))
          (λ n. do let flag = if n == 0 then result else 1; finish_rules env g flag; pure flag) t
          h in
      let (status, shown) = rejection-eq-ok t installed in
      let flag = if n == 0 then result else 1 in
      let ((k, v), finished, last) =
        exec_bind-eq-ok (finish_rules env g flag) (λ _. pure flag) u rest in
      let e : retval ≡ flag = (ok-pair last).0 in
      (
        e ∙ ap (λ n. if n == 0 then result else 1) status,
        (ok-pair last).1
            ∙ finish_rules-eq-ok flag u finished
            ∙ rw (← e) (ap (λ w. finish retval ∷ w) shown),
      )

  -- A run that returns has removed the old rules of the device, done a session of effects of the
  -- kinds that the access lists have, which this does not determine, installed the rule that rejects
  -- the rest, and then committed or rolled back. It committed exactly if every listed acl is in the
  -- file and each rule of that session, and the rejection, was installed with status 0.
  pub apply_mud_file-Applied :
      (t : List Effect) {retval : ℕ} {t' : List Effect}
      → apply_mud_file env g mud_file event t ≡ ok (retval, t')
      → Applied t t' retval
  unfolding apply_mud_file remove_firewall_ip_rule clean
  apply_mud_file-Applied t {retval} {t'} h =
      let ((result, u), run, rest) =
        exec_bind-eq-ok (run_access_lists env g mud_file event) (close_rules env g event)
          (removal ∷ t) h in
      let r = run_access_lists-Ran (removal ∷ t) run in
      let (flag, shown) = close_rules-eq-ok result u rest in
      record {
        session = r.added;
        trace = shown ∙ ap (λ w. finish retval ∷ rejection ∷ w) r.trace;
        rules = r.rules;
        result =
            flag
            ∙ ap (λ w. if env.status w rejection == 0 then result else 1) r.trace
            ∙ closing (env.status (r.added ++ (removal ∷ t)) rejection) result (acls_found mud_file)
                (clean env r.added (removal ∷ t)) r.result;
      }
