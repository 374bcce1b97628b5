-- ===== src/MudManager/Committed.antt =====
-- The whole run for a NEW event where every command succeeds.
use osmud.Prelude.{
  ℕ, ◌+◌, Bool, true, false, ◌&&◌, some, Option, List, [], ◌∷◌, ◌++◌, ◌≡◌, refl, ap, ◌∙◌, arith, ok,
}
use osmud.CString.{Bytes, has}
use osmud.Outside.{Env, Effect, system, read_file}
use osmud.DhcpEvent.{DhcpEvent, new_action}
use osmud.MudParser.Values.{JsonC}
use osmud.MudParser.Document.{Document, Fits, encode, info_of}
use osmud.MudParser.{c_text}
use osmud.OpenWrt.{uci_firewall_commit_script}
use osmud.MudManager.Access.{Globals}
use osmud.MudManager.Session.{clean}
use osmud.MudManager.Commit.{removal, rejection}
use osmud.MudManager.Documents.{all_listed}
use osmud.MudManager.Plan.{plan}
use osmud.MudManager.Planned.{IsSteady}
use osmud.MudManager.Pipeline.{Carried, transaction, entry}
use osmud.MudManager.Locate.{url_of}
use osmud.MudManager.NewDevice.{IsReachable, located, checked, execute_open_mud_dhcp_action-Carried}
use osmud.MudManager.{Counters, execute_open_mud_dhcp_action}

-- Every command and transfer returns 0, and every file opens.
pub record Succeeds (env : Env) : Type 0 where
  pub returns : (t : List Effect) (e : Effect) → env.status t e ≡ 0
  pub opens : (t : List Effect) (e : Effect) → env.opens t e ≡ true

clean-Succeeds : (env : Env) (es t : List Effect) → Succeeds env → clean env es t ≡ true
unfolding clean
clean-Succeeds env [] t s = refl
clean-Succeeds env (e ∷ es) t s =
    rw (s.returns (es ++ t) e, clean-Succeeds env es t s) (ground arith)

module _ (env : Env) (ips : Option Bytes → List Bytes) (g : Globals) (d : Document) where
  -- the document has an acl for each name in its policies
  abbrev pub names_acls : Bool
  names_acls = all_listed d d.from_policy && all_listed d d.to_policy

  result-zero :
      (event : DhcpEvent) (retval : ℕ) (t t' : List Effect)
      → Succeeds env
      → names_acls ≡ true
      → Carried env ips g event d retval t t'
      → retval ≡ 0
  result-zero event retval t t' s names c =
      c.result
      ∙ rw
          (
            names,
            clean-Succeeds env (rejection env g event (info_of d) ∷ c.session)
                (removal env g event (info_of d) ∷ t) s,
          )
          refl

  -- all that a run for a NEW event does, the newest first
  abbrev pub committed : DhcpEvent → Bytes → Bytes → Bytes → List Effect → List Effect
  committed event path stem extension t =
      let e = located env ips g d event path stem extension in
      entry env ips g e d
      ∷ system uci_firewall_commit_script
      ∷ rejection env g e (info_of d)
      ∷ plan ips g e d (
          removal env g e (info_of d)
          ∷ read_file (url_of g.mud_file_data_directory stem extension)
          ∷ checked env ips g d event path stem extension t)

  -- Where every command and transfer returns 0 and every file opens, a NEW event with a MUD URL whose
  -- file has an extension, for which a document within the bounds is fetched that has an acl for each
  -- name in its policies, and hosts that keep at most 50 addresses: the files are fetched and checked,
  -- the device is entered in the database, its old rules are removed, exactly the rules of the
  -- document are installed, then the rule that rejects the rest, they are committed, and the device
  -- is entered once more. Nothing else is done, and the event is counted.
  pub execute_open_mud_dhcp_action-committed :
      (jc : JsonC) (c : Counters) (event : DhcpEvent) (path stem extension text : Bytes)
      (t : List Effect)
      → Succeeds env
      → event.action ≡ new_action
      → event.mud_file_url ≡ some (url_of path stem extension)
      → has b'/' stem ≡ false
      → has b'/' extension ≡ false
      → has b'.' extension ≡ false
      → IsSteady ips g (located env ips g d event path stem extension) env
      → Fits d
      → names_acls ≡ true
      → env.contents
          (checked env ips g d event path stem extension t)
          (url_of g.mud_file_data_directory stem extension)
        ≡ some text
      → jc.tokener_parse (c_text text) ≡ encode d
      → execute_open_mud_dhcp_action env jc g c event t
        ≡ ok (
          (
            record c { new_events = c.new_events + 1 },
            located env ips g d event path stem extension,
          ),
          committed event path stem extension t,
        )
  execute_open_mud_dhcp_action-committed jc c event path stem extension text t s new at hs he dot
        steady fits names found parsed =
      let reachable : IsReachable env (located env ips g d event path stem extension) = record {
        opens = s.opens;
        fetches = λ u url output verify_peer. s.returns u _;
        signed = λ u. s.returns u _;
      } in
      let (retval, t', ran, carried) =
        execute_open_mud_dhcp_action-Carried env ips g d jc c event path stem extension text t new
          at hs he dot steady fits reachable found parsed in
      let e = located env ips g d event path stem extension in
      let u =
        read_file (url_of g.mud_file_data_directory stem extension)
        ∷ checked env ips g d event path stem extension t in
      let shown : t' ≡ transaction env ips g e d 0 u =
        carried.trace
        ∙ ap (λ n. transaction env ips g e d n u) (result-zero e retval u t' s names carried) in
      ran
      ∙ ap (λ v. ok ((record c { new_events = c.new_events + 1 }, e), entry env ips g e d ∷ v))
          shown
