-- ===== src/MudManager/Pipeline.antt =====
-- From the MUD file on the disk to the commands: the parser and the manager together.
use osmud.Prelude.{ℕ, ◌&&◌, some, Option, List, ◌∷◌, ◌++◌, ◌≡◌, sym, ap, ◌∙◌, ok, if◌then◌else◌}
use osmud.CString.{Bytes}
use osmud.Outside.{Env, Effect, read_file, exec_bind-ok}
use osmud.DhcpEvent.{DhcpEvent}
use osmud.MudParser.Values.{JsonC}
use osmud.MudParser.Document.{Document, Fits, encode, info_of}
use osmud.MudParser.RoundTrip.{parse_mud_file-encode}
use osmud.MudParser.{c_text, parse_mud_file}
use osmud.OpenWrt.{
  command, create_entry_command, install_mud_db_device_entry, remove_firewall_ip_rule,
}
use osmud.MudManager.Access.{Globals}
use osmud.MudManager.Session.{clean}
use osmud.MudManager.Commit.{removal, rejection, finish, close_rules-eq-ok, apply_mud_file-Applied}
use osmud.MudManager.Returns.{close_rules-Returns}
use osmud.MudManager.Documents.{all_listed, acls_found-info_of}
use osmud.MudManager.Plan.{plan}
use osmud.MudManager.Planned.{IsSteady, run_access_lists-plan}
use osmud.MudManager.{
  apply_mud_file, run_access_lists, close_rules, apply_parsed, execute_mud_with_dhcp_context,
}

module _ (env : Env) (ips : Option Bytes → List Bytes) (g : Globals) (event : DhcpEvent)
    (d : Document) where
  -- the effects of a whole run, the newest first
  abbrev pub transaction : ℕ → List Effect → List Effect
  transaction retval t =
      finish env g event (info_of d) retval
      ∷ rejection env g event (info_of d)
      ∷ plan ips g event d (removal env g event (info_of d) ∷ t)

  -- What a run for the document did on top of `t`: all that is planned for it, between the removal of
  -- the old rules and the end. `session` is what is planned.
  pub record Carried (retval : ℕ) (t t' : List Effect) : Type 0 where
    pub trace : t' ≡ transaction retval t
    pub session : List Effect
    pub planned :
        plan ips g event d (removal env g event (info_of d) ∷ t)
        ≡ session ++ (removal env g event (info_of d) ∷ t)
    pub result : retval ≡ (
        if (all_listed d d.from_policy && all_listed d d.to_policy)
          && clean env
              (rejection env g event (info_of d) ∷ session)
              (removal env g event (info_of d) ∷ t)
        then 0
        else 1)

  pub apply_mud_file-Carried :
      (t : List Effect)
      → IsSteady ips g event env
      → (retval : ℕ) × (t' : List Effect) × (apply_mud_file env g (info_of d) event t
          ≡ ok (retval, t'))
        × Carried retval t t'
  unfolding apply_mud_file remove_firewall_ip_rule
  apply_mud_file-Carried t steady =
      let old = removal env g event (info_of d) in
      let (result, ran) = run_access_lists-plan ips g event env steady d (old ∷ t) in
      let ((retval, t'), closed) =
        close_rules-Returns env (λ u host. (ips host, (steady u host).0, (steady u host).1)) g event
          result (plan ips g event d (old ∷ t)) in
      let (_, shown) =
        close_rules-eq-ok env g event (info_of d) result (plan ips g event d (old ∷ t)) closed in
      let whole =
        exec_bind-ok (run_access_lists env g (info_of d) event) (close_rules env g event) (old ∷ t)
          ran
        ∙ closed in
      let a = apply_mud_file-Applied env g event (info_of d) t whole in
      (
        retval,
        t',
        whole,
        record {
          trace = shown;
          session = a.session;
          planned = cc (sym shown ∙ a.trace);
          result =
              a.result
              ∙ ap
                  (λ b.
                    if b && clean env (rejection env g event (info_of d) ∷ a.session) (old ∷ t)
                    then 0
                    else 1)
                  (acls_found-info_of d);
        },
      )

  -- the effect of the entry in the database
  abbrev pub entry : Effect
  entry = command (
      create_entry_command g.mud_file_data_directory event.ip_address event.mac_address
        event.mud_file_url event.mud_file_storage_location event.host_name)

  -- Where every host keeps at most 50 addresses and the storage location holds a document within
  -- the bounds of the arrays, the MUD file is carried out to its end. The device is entered in the
  -- database, the file is read, the old rules of the device are removed, and then exactly the rules
  -- that the document stands for are installed, in their order, and the rule that rejects the rest.
  -- The rules are committed and the result is 0 exactly if the document has an acl for each name in
  -- its policies and every command of the rules returned 0; they are rolled back and it is 1
  -- otherwise.
  pub execute_mud_with_dhcp_context-Carried :
      (jc : JsonC) (file text : Bytes) (t : List Effect)
      → IsSteady ips g event env
      → Fits d
      → event.mud_file_storage_location ≡ some file
      → env.contents (entry ∷ t) file ≡ some text
      → jc.tokener_parse (c_text text) ≡ encode d
      → (retval : ℕ) × (t' : List Effect) × (execute_mud_with_dhcp_context env jc g event t
          ≡ ok (retval, t'))
        × Carried retval (read_file file ∷ entry ∷ t) t'
  unfolding execute_mud_with_dhcp_context install_mud_db_device_entry
  execute_mud_with_dhcp_context-Carried jc file text t steady fits stored found parsed =
      let (retval, t', applied, carried) =
        apply_mud_file-Carried (read_file file ∷ entry ∷ t) steady in
      let read =
        ap (λ f. parse_mud_file env jc f (entry ∷ t)) stored
        ∙ parse_mud_file-encode jc env file text (entry ∷ t) d fits found parsed in
      (
        retval,
        t',
        exec_bind-ok (parse_mud_file env jc event.mud_file_storage_location)
              (λ m. apply_parsed env jc g m event) (entry ∷ t) read
            ∙ unfold apply_parsed in applied,
        carried,
      )
