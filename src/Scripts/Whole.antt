-- ===== src/Scripts/Whole.antt =====
-- A NEW event up to the rules that are in force and the entry in the database.
use osmud.Prelude.{
  Bool, ℕ, ◌+◌, ◌<◌, ◌≤◌, true, false, Option, some, List, [], ◌∷◌, ◌++◌, ◌≡◌, refl, sym, ap, ◌∙◌,
  All, ok, length,
}
use osmud.CString.{Bytes, codes, has, shown}
use osmud.CString.Laws.{str_eq_refl}
use osmud.Outside.{Env, Effect, read_file}
use osmud.DhcpEvent.{DhcpEvent, new_action}
use osmud.MudParser.Values.{JsonC}
use osmud.MudParser.Document.{Document, Fits, encode, info_of}
use osmud.MudParser.{c_text}
use osmud.OpenWrt.{
  buf_size, remove_rule_command, create_entry_command, mud_db_created_file, dash_for_null,
}
use osmud.MudManager.{Counters, execute_open_mud_dhcp_action, reject_all_rule}
use osmud.MudManager.Access.{Globals}
use osmud.MudManager.Commit.{removal}
use osmud.MudManager.Committed.{names_acls}
use osmud.MudManager.Locate.{url_of}
use osmud.MudManager.NewDevice.{IsReachable, located, checked, execute_open_mud_dhcp_action-Carried}
use osmud.MudManager.Pipeline.{entry}
use osmud.MudManager.Planned.{IsSteady}
use osmud.Scripts.Shell.{IsWord}
use osmud.Scripts.Uci.{Section}
use osmud.Scripts.Database.{with_lines}
use osmud.Scripts.Entries.{joined, IsPlainEntry, run_effect-create_entry_command}
use osmud.Scripts.Machine.{World, Tools, RunsScripts, replay}
use osmud.Scripts.Grown.{IsInstallable, rules_at, saved_at}
use osmud.Scripts.Planned.{AclFits, document_sections}
use osmud.Scripts.Indices.{others}
use osmud.Scripts.Removal.{ShowsOnce, delete_rules-rules_to_delete}
use osmud.Scripts.Removed.{run_effect-remove_rule_command}
use osmud.Scripts.Transaction.{reject_section, Carried-saved}

module _ {S : Type 0} (tools : Tools S) (w : World S) (env : Env) where
  -- The device of an event has `p` for its rules after `u`, which can be removed.
  pub record IsRemovable (event : DhcpEvent) (p : Section → Bool) (u : List Effect) : Type 0 where
    pub ip_word : IsWord (shown event.ip_address)
    pub mac_word : IsWord (shown event.mac_address)
    pub fits : length (remove_rule_command event.ip_address event.mac_address) < buf_size
    pub once :
        ShowsOnce tools.uci tools.matches (shown event.ip_address) p (replay tools w u).config
    pub few : length (rules_at tools w env u) ≤ 10

  -- the line of an event's entry
  abbrev pub line_of : DhcpEvent → Bytes
  line_of event = joined (
      shown event.ip_address
      ∷ shown event.mac_address
      ∷ dash_for_null event.mud_file_url
      ∷ dash_for_null event.mud_file_storage_location
      ∷ dash_for_null event.host_name
      ∷ [])

  -- The entry of the event can be created.
  pub record IsEnterable (g : Globals) (event : DhcpEvent) : Type 0 where
    pub plain :
        IsPlainEntry
          (mud_db_created_file g.mud_file_data_directory)
          (shown event.ip_address)
          (shown event.mac_address)
          (dash_for_null event.mud_file_url)
          (dash_for_null event.mud_file_storage_location)
          (dash_for_null event.host_name)
    pub short :
        length (
          create_entry_command g.mud_file_data_directory event.ip_address event.mac_address
            event.mud_file_url event.mud_file_storage_location event.host_name)
        < buf_size

  removal-rules :
      (g : Globals) (event : DhcpEvent) (d : Document) (p : Section → Bool) (u : List Effect)
      → IsRemovable event p u
      → rules_at tools w env (removal env g event (info_of d) ∷ u)
        ≡ others p (rules_at tools w env u)
  unfolding replay
  removal-rules g event d p u h =
      ap (λ (q : ℕ × World S). tools.uci.rules q.1.config)
        (run_effect-remove_rule_command tools event.ip_address event.mac_address (replay tools w u)
          h.ip_word h.mac_word h.fits)
      ∙ delete_rules-rules_to_delete tools.uci tools.matches (shown event.ip_address) p
          (replay tools w u).config h.once h.few

  entry-run :
      (ips : Option Bytes → List Bytes) (g : Globals) (event : DhcpEvent) (d : Document)
      (v : List Effect)
      → IsEnterable g event
      → replay tools w (entry env ips g event d ∷ v) ≡ record {
        config = (replay tools w v).config;
        files =
            with_lines
              (mud_db_created_file g.mud_file_data_directory)
              ((replay tools w v).files (mud_db_created_file g.mud_file_data_directory)
                ++ (line_of event ∷ []))
              (replay tools w v).files;
      }
  unfolding replay
  entry-run ips g event d v h =
      ap (λ (q : ℕ × World S). q.1)
        (run_effect-create_entry_command tools g.mud_file_data_directory event.ip_address
          event.mac_address event.mud_file_url event.mud_file_storage_location event.host_name
          (replay tools w v) h.plain h.short)

  module _ (ips : Option Bytes → List Bytes) (g : Globals) (d : Document) where
    -- A NEW event with a MUD URL whose file has an extension, where every file opens and is
    -- fetched, the signature is valid, every host keeps at most 50 addresses, the fetched file is a
    -- document within the bounds that has an acl for each name in its policies, all commands for
    -- the rules and the entry are of words and fit their buffers, a command returns 0 exactly if
    -- its script does, and where at most 10 rules are there when the file is read, of which each
    -- rule of the device shows in one line and no other line matches its address: the event is
    -- dealt with and counted, and then the rules in force and saved are those that are not the
    -- device's, the sections of the document, and the section that rejects the rest, in this order;
    -- the entry of the device is the last line of the database.
    pub execute_open_mud_dhcp_action-saved :
        (jc : JsonC) (c : Counters) (event : DhcpEvent) (path stem extension text : Bytes)
        (p : Section → Bool) (t : List Effect)
        → event.action ≡ new_action
        → event.mud_file_url ≡ some (url_of path stem extension)
        → has b'/' stem ≡ false
        → has b'/' extension ≡ false
        → has b'.' extension ≡ false
        → IsSteady ips g (located env ips g d event path stem extension) env
        → Fits d
        → IsReachable env (located env ips g d event path stem extension)
        → env.contents
            (checked env ips g d event path stem extension t)
            (url_of g.mud_file_data_directory stem extension)
          ≡ some text
        → jc.tokener_parse (c_text text) ≡ encode d
        → names_acls env ips g d ≡ true
        → RunsScripts tools w env
        → All (AclFits ips (located env ips g d event path stem extension)) d.acls
        → IsInstallable
            (reject_all_rule (located env ips g d event path stem extension))
            (codes "DENY")
        → IsRemovable (located env ips g d event path stem extension) p (
            read_file (url_of g.mud_file_data_directory stem extension)
            ∷ checked env ips g d event path stem extension t)
        → IsEnterable g (located env ips g d event path stem extension)
        → (t' : List Effect) × (execute_open_mud_dhcp_action env jc g c event t
            ≡ ok (
              (
                record c { new_events = c.new_events + 1 },
                located env ips g d event path stem extension,
              ),
              t',
            ))
          × (saved_at tools w env t'
              ≡ others p (
                  rules_at tools w env (
                    read_file (url_of g.mud_file_data_directory stem extension)
                    ∷ checked env ips g d event path stem extension t))
                ++ (document_sections ips (located env ips g d event path stem extension) d
                    ++ (reject_section ips g
                          (located env ips g d event path stem extension)
                          d
                          tools
                          w
                          env
                        ∷ [])))
          × (rules_at tools w env t' ≡ saved_at tools w env t')
          × ((before : List Bytes) × ((replay tools w t').files
                  (mud_db_created_file g.mud_file_data_directory)
                ≡ before ++ (line_of (located env ips g d event path stem extension) ∷ [])))
    unfolding with_lines
    execute_open_mud_dhcp_action-saved jc c event path stem extension text p t new at hs he dot
          steady fits reach found parsed names runs acls reject removable enterable =
        let e = located env ips g d event path stem extension in
        let u =
          read_file (url_of g.mud_file_data_directory stem extension)
          ∷ checked env ips g d event path stem extension t in
        let (retval, v, ran, carried) =
          execute_open_mud_dhcp_action-Carried env ips g d jc c event path stem extension text t new
            at hs he dot steady fits reach found parsed in
        let (_, saved, same) =
          Carried-saved ips g e d tools w env retval u v runs acls reject names carried in
        let last = entry-run ips g e d v enterable in
        let db = mud_db_created_file g.mud_file_data_directory in
        (
          entry env ips g e d ∷ v,
          ran,
          ap (λ (x : World S). tools.uci.saved x.config) last
              ∙ saved
              ∙ ap
                  (λ l.
                    l ++ (document_sections ips e d ++ (reject_section ips g e d tools w env ∷ [])))
                  (removal-rules g e d p u removable),
          ap (λ (x : World S). tools.uci.rules x.config) last
              ∙ same
              ∙ sym (ap (λ (x : World S). tools.uci.saved x.config) last),
          (
            (replay tools w v).files db,
            ap (λ (x : World S). x.files db) last ∙ rw (str_eq_refl db) refl,
          ),
        )
