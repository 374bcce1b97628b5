-- ===== src/MudManager/Gate.antt =====
-- `executeNewDhcpAction`: the device is changed only for a MUD file whose signature was verified.
use mathlib.Core.Path.{subst}
use osmud.Prelude.{
  ℕ, false, ◌||◌, ◌⊎◌, inl, inr, Option, some, List, ◌∷◌, ◌≡◌, sym, ap, ◌∙◌, ok, arith, ◌==◌,
  Bool-cases, ==_iff,
}
use osmud.CString.{Bytes}
use osmud.Outside.{Env, Effect, exec_bind-eq-ok, ok-pair, ◌>>=◌, ◌>>◌, pure}
use osmud.DhcpEvent.{DhcpEvent}
use osmud.MudParser.Values.{JsonC}
use osmud.OpenWrt.{command, verify_command, verify_cms_signature}
use osmud.Comms.{get_open_mud_file}
use osmud.MudManager.Access.{Globals}
use osmud.MudManager.Trace.{Grew, Grew-one, Grew-trans, execute_mud-Grew}
use osmud.OpenWrt.{install_mud_db_device_entry}
use osmud.MudManager.{
  new_action_for, carry_out, execute_new_dhcp_action, execute_mud_device,
  execute_mud_with_dhcp_context, locate, when_signed, when_sig_fetched, when_mud_fetched,
  validate_mud_file_with_sig,
}
use osmud.MudManager.Fetched.{
  get_open_mud_file-Fetched, Fetched, Fetching, checked, Added, Added-trans, Added-quiet,
  get_open_mud_file-Added,
}

module _ (env : Env) (event : DhcpEvent) where
  -- the check of the signature
  abbrev pub check : Effect
  check =
      command (verify_command event.mud_file_storage_location event.mud_sig_file_storage_location)

  -- `getOpenMudFile` returned 0 for both files, the check of the signature returned 0, and whatever
  -- else was done came later. Each file was transferred, or not touched for want of a handle.
  pub record Verified (t t' : List Effect) : Type 0 where
    pub after_mud : List Effect
    pub mud_fetched : Fetched env event.mud_file_url event.mud_file_storage_location t after_mud
    pub after_sig : List Effect
    pub sig_fetched :
        Fetched env event.mud_sig_url event.mud_sig_file_storage_location after_mud after_sig
    pub valid : env.status after_sig check ≡ 0
    pub later : Grew (check ∷ after_sig) t'

  module _ (jc : JsonC) (g : Globals) where
    carry_out-Grew :
        (u : List Effect) {e : DhcpEvent} {t' : List Effect}
        → carry_out env jc g event u ≡ ok (e, t')
        → Grew u t'
    unfolding carry_out install_mud_db_device_entry
    carry_out-Grew u h =
        let ((n, v), ran, rest) =
          exec_bind-eq-ok (execute_mud_with_dhcp_context env jc g event)
            (λ _. do
              install_mud_db_device_entry env g.mud_file_data_directory event.ip_address
                  event.mac_address event.mud_file_url event.mud_file_storage_location
                  event.host_name
              pure event)
            u h in
        Grew-trans (execute_mud-Grew env jc g event u ran)
          (subst (λ w. Grew v w) (sym (ok-pair rest).1) (Grew-one _ v))

    when_signed-cases :
        (signature : ℕ) (u : List Effect) {e : DhcpEvent} {t' : List Effect}
        → g.no_fail_on_mud_validation ≡ false
        → when_signed env jc g signature event u ≡ ok (e, t')
        → (t' ≡ u) ⊎ ((signature ≡ 0) × Grew u t')
    unfolding when_signed
    when_signed-cases signature u strict h =
        elim (Bool-cases (signature == 0 || g.no_fail_on_mud_validation)) [
          | inl e ↦ inr (ground arith, carry_out-Grew u (rw e at h))
          | inr e ↦ inl (ok-pair (rw e at h)).1
        ]

    validate-eq-ok :
        (u : List Effect) {n : ℕ} {t' : List Effect}
        → validate_mud_file_with_sig env jc g event u ≡ ok (n, t')
        → (t' ≡ check ∷ u) × (n ≡ 0 → env.status u check ≡ 0)
    unfolding validate_mud_file_with_sig verify_cms_signature
    validate-eq-ok u h = ((ok-pair h).1, ground arith)

    when_sig_fetched-cases :
        (fetched : ℕ) (u : List Effect) {e : DhcpEvent} {t' : List Effect}
        → g.no_fail_on_mud_validation ≡ false
        → when_sig_fetched env jc g fetched event u ≡ ok (e, t')
        → ((t' ≡ u) ⊎ (t' ≡ check ∷ u))
          ⊎ ((fetched ≡ 0) × (env.status u check ≡ 0) × Grew (check ∷ u) t')
    unfolding when_sig_fetched
    when_sig_fetched-cases fetched u {t' = t'} strict h =
        elim (Bool-cases (fetched == 0 || g.no_fail_on_mud_validation)) [
          | inl e ↦
              let ((n, v), answered, rest) =
                exec_bind-eq-ok (validate_mud_file_with_sig env jc g event)
                  (λ signature. when_signed env jc g signature event) u (rw e at h) in
              let (shown, valid) = validate-eq-ok u answered in
              elim (when_signed-cases n v strict rest) [
                | inl q ↦ inl (inr (q ∙ shown))
                | inr (z, grew) ↦ inr (ground arith, valid z, subst (λ w. Grew w t') shown grew)
              ]
          | inr e ↦ inl (inl (ok-pair (rw e at h)).1)
        ]

    status_zero :
        (url file : Option Bytes) (t u : List Effect) (m : ℕ)
        → g.no_fail_on_mud_validation ≡ false
        → m ≡ 0
        → get_open_mud_file env g.no_fail_on_mud_validation url file t ≡ ok (m, u)
        → Fetched env url file t u
    status_zero url file t u m strict z h = get_open_mud_file-Fetched env url file t u (
        ap (λ flag. get_open_mud_file env flag url file t) (sym strict) ∙ h ∙ ap (λ k. ok (k, u)) z)

    -- with the MUD file fetched
    when_mud_fetched-cases :
        (m : ℕ) (t u : List Effect) {e : DhcpEvent} {t' : List Effect}
        → g.no_fail_on_mud_validation ≡ false
        → get_open_mud_file env g.no_fail_on_mud_validation event.mud_file_url
            event.mud_file_storage_location t
          ≡ ok (m, u)
        → m ≡ 0
        → (do
          s ←
              get_open_mud_file env g.no_fail_on_mud_validation event.mud_sig_url
                event.mud_sig_file_storage_location
          when_sig_fetched env jc g s event)
            u
          ≡ ok (e, t')
        → Added (Fetching event) t t' ⊎ Verified t t'
    when_mud_fetched-cases m t u {t' = t'} strict mud z h =
        let flag = g.no_fail_on_mud_validation in
        let first =
          get_open_mud_file-Added env event flag event.mud_file_url event.mud_file_storage_location
            t mud in
        let ((s, v), sig, last) =
          exec_bind-eq-ok
            (get_open_mud_file env flag event.mud_sig_url event.mud_sig_file_storage_location)
            (λ s. when_sig_fetched env jc g s event) u h in
        let second =
          get_open_mud_file-Added env event flag event.mud_sig_url
            event.mud_sig_file_storage_location u sig in
        elim (when_sig_fetched-cases s v strict last) [
          | inl quiet ↦ inl (Added-quiet check checked (Added-trans first second) quiet)
          | inr (y, valid, later) ↦ inr (record {
            after_mud = u;
            mud_fetched =
                status_zero event.mud_file_url event.mud_file_storage_location t u m strict z mud;
            after_sig = v;
            sig_fetched =
                status_zero event.mud_sig_url event.mud_sig_file_storage_location u v s strict y
                  sig;
            valid = valid;
            later = later;
          })
        ]

    -- the cases of a device with a MUD URL
    execute_mud_device-cases :
        (t : List Effect) {e : DhcpEvent} {t' : List Effect}
        → g.no_fail_on_mud_validation ≡ false
        → execute_mud_device env jc g event t ≡ ok (e, t')
        → Added (Fetching event) t t' ⊎ Verified t t'
    unfolding execute_mud_device when_mud_fetched
    execute_mud_device-cases t strict h =
        let flag = g.no_fail_on_mud_validation in
        let ((m, u), mud, rest) =
          exec_bind-eq-ok
            (get_open_mud_file env flag event.mud_file_url event.mud_file_storage_location)
            (λ m. when_mud_fetched env jc g m event) t h in
        let first =
          get_open_mud_file-Added env event flag event.mud_file_url event.mud_file_storage_location
            t mud in
        elim (Bool-cases (m == 0)) [
          | inl e ↦ when_mud_fetched-cases m t u strict mud ((==_iff m 0).0 e) (rw e at rest)
          | inr e ↦ inl (Added-quiet check checked first (inl (ok-pair (rw e at rest)).1))
        ]

module _ (env : Env) (jc : JsonC) (g : Globals) (event : DhcpEvent) where
  -- Without the option "-i", a NEW event with a MUD URL that is dealt with either did nothing but
  -- begin or do transfers and check the signature, or `getOpenMudFile` returned 0 for the MUD file
  -- and for its signature, the check of the signature returned 0, and all that was done besides
  -- came after that check. For each of the two files, 0 says that it was transferred with status 0
  -- and with the certificate checked, or that `curl_easy_init` gave no handle and nothing was
  -- fetched.
  pub execute_new_dhcp_action-Verified :
      (url : Bytes) (t : List Effect) {e : DhcpEvent} {t' : List Effect}
      → g.no_fail_on_mud_validation ≡ false
      → event.mud_file_url ≡ some url
      → execute_new_dhcp_action env jc g event t ≡ ok (e, t')
      → Added (Fetching (locate g event)) t t' ⊎ Verified env (locate g event) t t'
  unfolding execute_new_dhcp_action
  execute_new_dhcp_action-Verified url t strict has_url h =
      execute_mud_device-cases env (locate g event) jc g t strict
        (sym (ap (λ o. new_action_for env jc g o event t) has_url) ∙ h)
