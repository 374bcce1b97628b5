-- ===== src/MudManager/NewDevice.antt =====
-- A NEW event of a device whose MUD file can be fetched, from the event to the end of its rules.
use osmud.Prelude.{ℕ, ◌+◌, Bool, true, false, not, some, Option, List, ◌∷◌, ◌≡◌, refl, ap, ◌∙◌, ok}
use osmud.CString.{Bytes, has}
use osmud.Outside.{Env, Effect, curl_init, create_file, transfer, read_file, exec_bind-ok}
use osmud.Comms.{get_open_mud_file, begin_fetch, fetch, close_output}
use osmud.DhcpEvent.{DhcpEvent, new_action, mud_file_signature_extension}
use osmud.MudParser.Values.{JsonC}
use osmud.MudParser.Document.{Document, Fits, encode}
use osmud.MudParser.{c_text}
use osmud.OpenWrt.{verify_cms_signature, install_mud_db_device_entry}
use osmud.MudManager.Access.{Globals}
use osmud.MudManager.Gate.{check}
use osmud.MudManager.Planned.{IsSteady}
use osmud.MudManager.Pipeline.{Carried, entry, execute_mud_with_dhcp_context-Carried}
use osmud.MudManager.Locate.{url_of, locate-url_of}
use osmud.MudManager.{
  Counters, carry_out, when_signed, when_sig_fetched, when_mud_fetched, validate_mud_file_with_sig,
  execute_mud_with_dhcp_context, execute_mud_device, execute_new_dhcp_action, new_action_for,
  dispatch, execute_open_mud_dhcp_action,
}

-- a file that was fetched
abbrev pub downloaded : Bool → Bytes → Bytes → List Effect → List Effect
downloaded flag url file t = transfer url file (not flag) ∷ create_file file ∷ curl_init ∷ t

-- Files can be opened and fetched, and the signature of the event's MUD file is valid.
pub record IsReachable (env : Env) (event : DhcpEvent) : Type 0 where
  pub opens : (t : List Effect) (e : Effect) → env.opens t e ≡ true
  pub fetches :
      (t : List Effect) (url output : Bytes) (verify_peer : Bool)
      → env.status t (transfer url output verify_peer) ≡ 0
  pub signed : (t : List Effect) → env.status t (check env event) ≡ 0

module _ (env : Env) where
  get_open_mud_file-downloaded :
      (event : DhcpEvent) (flag : Bool) (url file : Bytes) (t : List Effect)
      → IsReachable env event
      → get_open_mud_file env flag (some url) (some file) t ≡ ok (0, downloaded flag url file t)
  unfolding get_open_mud_file begin_fetch fetch close_output
  get_open_mud_file-downloaded event flag url file t h = rw (h.opens t curl_init) (
      rw (h.opens (curl_init ∷ t) (create_file file))
        (ap (λ n. ok (n, downloaded flag url file t)) (h.fetches _ url file (not flag))))

module _ (env : Env) (ips : Option Bytes → List Bytes) (g : Globals) (d : Document) where
  -- both files, and the check of the signature
  abbrev pub gate : DhcpEvent → Bytes → Bytes → Bytes → Bytes → List Effect → List Effect
  gate event url file sig_url sig_file t =
      check env event
      ∷ downloaded g.no_fail_on_mud_validation sig_url sig_file
          (downloaded g.no_fail_on_mud_validation url file t)

  carry_out-Carried :
      (event : DhcpEvent) (jc : JsonC) (file text : Bytes) (t : List Effect)
      → IsSteady ips g event env
      → Fits d
      → event.mud_file_storage_location ≡ some file
      → env.contents (entry env ips g event d ∷ t) file ≡ some text
      → jc.tokener_parse (c_text text) ≡ encode d
      → (retval : ℕ) × (t' : List Effect) × (carry_out env jc g event t
          ≡ ok (event, entry env ips g event d ∷ t'))
        × Carried env ips g event d retval (read_file file ∷ entry env ips g event d ∷ t) t'
  unfolding carry_out install_mud_db_device_entry
  carry_out-Carried event jc file text t steady fits stored found parsed =
      let (retval, t', ran, carried) =
        execute_mud_with_dhcp_context-Carried env ips g event d jc file text t steady fits stored
          found parsed in
      (retval, t', exec_bind-ok (execute_mud_with_dhcp_context env jc g event) _ t ran, carried)

  execute_mud_device-Carried :
      (event : DhcpEvent) (jc : JsonC) (url file sig_url sig_file text : Bytes) (t : List Effect)
      → IsSteady ips g event env
      → Fits d
      → IsReachable env event
      → event.mud_file_url ≡ some url
      → event.mud_file_storage_location ≡ some file
      → event.mud_sig_url ≡ some sig_url
      → event.mud_sig_file_storage_location ≡ some sig_file
      → env.contents (entry env ips g event d ∷ gate event url file sig_url sig_file t) file
        ≡ some text
      → jc.tokener_parse (c_text text) ≡ encode d
      → (retval : ℕ) × (t' : List Effect) × (execute_mud_device env jc g event t
          ≡ ok (event, entry env ips g event d ∷ t'))
        × Carried env ips g event d retval
            (read_file file ∷ entry env ips g event d ∷ gate event url file sig_url sig_file t)
            t'
  unfolding execute_mud_device when_mud_fetched when_sig_fetched when_signed
      validate_mud_file_with_sig verify_cms_signature
  execute_mud_device-Carried event jc url file sig_url sig_file text t steady fits h at stored
        sig_at sig_stored found parsed =
      let flag = g.no_fail_on_mud_validation in
      let u = downloaded flag url file t in
      let v = downloaded flag sig_url sig_file u in
      let first : get_open_mud_file env flag event.mud_file_url event.mud_file_storage_location t
          ≡ ok (0, u) =
        rw (at, stored) (get_open_mud_file-downloaded env event flag url file t h) in
      let second : get_open_mud_file env flag event.mud_sig_url event.mud_sig_file_storage_location
            u
          ≡ ok (0, v) =
        rw (sig_at, sig_stored)
          (get_open_mud_file-downloaded env event flag sig_url sig_file u h) in
      let valid : validate_mud_file_with_sig env jc g event v ≡ ok (0, check env event ∷ v) =
        rw (h.signed v) refl in
      let (retval, t', ran, carried) =
        carry_out-Carried event jc file text (check env event ∷ v) steady fits stored found
          parsed in
      (
        retval,
        t',
        exec_bind-ok (get_open_mud_file env flag event.mud_file_url event.mud_file_storage_location)
              _ t first
            ∙ exec_bind-ok
                (get_open_mud_file env flag event.mud_sig_url event.mud_sig_file_storage_location) _
                u second
            ∙ exec_bind-ok (validate_mud_file_with_sig env jc g event)
                (λ n. when_signed env jc g n event) v valid
            ∙ ran,
        carried,
      )

  -- the event of a URL, with its four locations
  abbrev pub located : DhcpEvent → Bytes → Bytes → Bytes → DhcpEvent
  located event path stem extension = record event {
    mud_file_url = some (url_of path stem extension);
    mud_sig_url = some (url_of path stem mud_file_signature_extension);
    mud_file_storage_location = some (url_of g.mud_file_data_directory stem extension);
    mud_sig_file_storage_location =
        some (url_of g.mud_file_data_directory stem mud_file_signature_extension);
  }

  -- what was done when the MUD file of the URL is carried out: both files are there and checked
  abbrev pub checked : DhcpEvent → Bytes → Bytes → Bytes → List Effect → List Effect
  checked event path stem extension t =
      entry env ips g (located event path stem extension) d
      ∷ gate (located event path stem extension) (url_of path stem extension)
          (url_of g.mud_file_data_directory stem extension)
          (url_of path stem mud_file_signature_extension)
          (url_of g.mud_file_data_directory stem mud_file_signature_extension) t

  -- A NEW event with a MUD URL whose file has an extension, where every file opens and is fetched,
  -- the signature is valid, every host keeps at most 50 addresses, and the fetched file is a document
  -- within the bounds of the arrays: the event is dealt with to its end, and counted. Both files are
  -- fetched to their places in the data directory, the signature is checked, then the document is
  -- carried out, with a commit or a roll back as its commands return, and the device is entered in
  -- the database once more.
  pub execute_open_mud_dhcp_action-Carried :
      (jc : JsonC) (c : Counters) (event : DhcpEvent) (path stem extension text : Bytes)
      (t : List Effect)
      → event.action ≡ new_action
      → event.mud_file_url ≡ some (url_of path stem extension)
      → has b'/' stem ≡ false
      → has b'/' extension ≡ false
      → has b'.' extension ≡ false
      → IsSteady ips g (located event path stem extension) env
      → Fits d
      → IsReachable env (located event path stem extension)
      → env.contents
          (checked event path stem extension t)
          (url_of g.mud_file_data_directory stem extension)
        ≡ some text
      → jc.tokener_parse (c_text text) ≡ encode d
      → (retval : ℕ) × (t' : List Effect) × (execute_open_mud_dhcp_action env jc g c event t
          ≡ ok (
            (record c { new_events = c.new_events + 1 }, located event path stem extension),
            entry env ips g (located event path stem extension) d ∷ t',
          ))
        × Carried env ips g
            (located event path stem extension)
            d
            retval
            (read_file (url_of g.mud_file_data_directory stem extension)
              ∷ checked event path stem extension t)
            t'
  unfolding execute_open_mud_dhcp_action execute_new_dhcp_action
  execute_open_mud_dhcp_action-Carried jc c event path stem extension text t new at hs he dot steady
        fits h found parsed =
      let e = located event path stem extension in
      let (retval, t', ran, carried) =
        execute_mud_device-Carried e jc _ _ _ _ text t steady fits h refl refl refl refl found
          parsed in
      let whole : execute_new_dhcp_action env jc g event t ≡ ok (e, entry env ips g e d ∷ t') =
        ap (λ o. new_action_for env jc g o event t) at
        ∙ ap (λ x. execute_mud_device env jc g x t)
            (locate-url_of g event path stem extension hs he dot at)
        ∙ ran in
      (
        retval,
        t',
        ap (λ a. dispatch env jc g a c event t) new
            ∙ exec_bind-ok (execute_new_dhcp_action env jc g event) _ t whole,
        carried,
      )
