-- ===== src/Main/Safe.antt =====
-- What holds whenever `main` enters the loop over the events.
use osmud.Prelude.{
  Fault, Bool, true, false, ◌||◌, Option, none, some, List, ◌∷◌, ◌≡◌, refl, ap, ◌∙◌, sym, Outcome,
  ok, fault, inl, inr, if◌then◌else◌, Bool-cases,
}
use osmud.Prelude.Int.{ℤ, pos, negsuc}
use osmud.CString.{Bytes, codes}
use osmud.Outside.{
  ◌>>=◌, pure, pure, Env, Exec, Effect, open_events, exec_bind-ok, exec_bind-eq-ok, lift_bind-eq-ok,
}
use osmud.Utils.Paths.{fopen_with_path, create_mudfile_storage, mkdir_path}
use osmud.Utils.Folders.{folders, all_made, attempts, mkdir_path-made, mkdir_path-unmade}
use osmud.Main.Settings.{
  read_options, default_dhcp_event_file, Settings, Opt, unset, mud_file_directory, osmud_log_file,
  check_for_defaults, log_initial_settings,
}
use osmud.Main.Options.{
  given, all_accepted, by_last, settings_fit, read_options-by_last, log_initial_settings-fits,
}
use osmud.Main.Start.{
  Fork, fork_failed, in_parent, in_child, Running, Ending, stops, runs, initial_log_level,
  become_daemon, write_pid_file, watch_events, use_storage, open_log, main,
}
use osmud.Main.Started.{setting, configured, running, Stays, check_for_defaults-by_last}

if-ok {ℓ} :
    {A : Type ℓ} (b : Bool) (x : A) (e : Fault) {y : A}
    → ◌≡◌ {A = Outcome A} (if b then ok x else fault e) (ok y)
    → b ≡ true
if-ok true x e h = refl
if-ok false x e h = cc

logged-fits :
    (s : Settings) (text : Bytes) → log_initial_settings s ≡ ok text → settings_fit s ≡ true
logged-fits s text h = if-ok (settings_fit s) _ _ (sym (log_initial_settings-fits s) ∙ h)

module _ (env : Env) (opts : List Opt) where
  -- What is known where the loop over the events is entered.
  abbrev pub Entered : Fork → Running → Type 0
  Entered fork r = (r ≡ running opts) × Stays fork opts × (settings_fit (configured opts) ≡ true)

  become_daemon-child :
      (fork : Fork) (s : Settings) (r r' : Running) (t t' : List Effect)
      → become_daemon env fork s r t ≡ ok (runs r', t')
      → (r' ≡ r) × (fork ≡ in_child true)
  unfolding become_daemon
  become_daemon-child fork_failed s r r' t t' h = cc
  become_daemon-child (in_parent n) s r r' t t' h =
      let (p, ran, e) = exec_bind-eq-ok (write_pid_file env s n) _ t h in cc
  become_daemon-child (in_child true) s r r' t t' h = (cc, refl)
  become_daemon-child (in_child false) s r r' t t' h = cc

  watch_events-Stays :
      (fork : Fork) (r r' : Running) (t t' : List Effect)
      → watch_events env fork (configured opts) r t ≡ ok (runs r', t')
      → (r' ≡ r) × Stays fork opts
  unfolding watch_events
  watch_events-Stays fork r r' t t' h =
      go (env.opens t (open_events event)) (given b'd' opts false || given b'k' opts false) refl h
    where
      event : Bytes
      event = setting default_dhcp_event_file b'e' opts

      go :
          (opened foreground : Bool)
          → (given b'd' opts false || given b'k' opts false) ≡ foreground
          → (if opened
                then (if foreground
                    then pure (runs r)
                    else become_daemon env fork (configured opts) r)
                else pure (stops (negsuc 0)))
              (open_events event ∷ t)
            ≡ ok (runs r', t')
          → (r' ≡ r) × Stays fork opts
      go true true e i = (cc, inl e)
      go true false e i =
          let (same, forks) = become_daemon-child fork (configured opts) r r' _ t' i in
          (same, inr forks)
      go false foreground e i = cc

  use_storage-Entered :
      (fork : Fork) (r : Running) (t t' : List Effect)
      → use_storage env fork (configured opts) (0, setting mud_file_directory b'b' opts) t
        ≡ ok (runs r, t')
      → Entered fork r
  unfolding use_storage initial_log_level
  use_storage-Entered fork r t t' h =
      let (text, logged, rest) = lift_bind-eq-ok (log_initial_settings (configured opts)) _ t h in
      let (same, stays) = watch_events-Stays fork (running opts) r t t' rest in
      (same, stays, logged-fits (configured opts) text logged)

  create_mudfile_storage-Entered :
      (fork : Fork) (r : Running) (t t' : List Effect)
      → (create_mudfile_storage env (setting mud_file_directory b'b' opts)
            >>= use_storage env fork (configured opts))
          t
        ≡ ok (runs r, t')
      → Entered fork r
  unfolding create_mudfile_storage mkdir_path use_storage
  create_mudfile_storage-Entered fork r t t' h =
      elim (Bool-cases (all_made env (folders directory) t)) [
        | inl e ↦ use_storage-Entered fork r (attempts env (folders directory) t) t' (
            sym (
              exec_bind-ok (mkdir_path env directory) (use_storage env fork (configured opts)) t
                (mkdir_path-made env directory t e))
            ∙ h)
        | inr e ↦
            let (d, unmade) = mkdir_path-unmade env directory t e in
            stops-runs (
              sym (
                exec_bind-ok (mkdir_path env directory) (use_storage env fork (configured opts)) t
                  unmade)
              ∙ h)
      ]
    where
      directory : Bytes
      directory = setting mud_file_directory b'b' opts

      stops-runs :
          {z : ℤ} {u : List Effect}
          → ◌≡◌ {A = Outcome (Ending × List Effect)} (ok (stops z, u)) (ok (runs r, t'))
          → Entered fork r
      stops-runs i = cc

  open_log-Entered :
      (fork : Fork) (r : Running) (t t' : List Effect)
      → open_log env fork (configured opts) t ≡ ok (runs r, t')
      → Entered fork r
  unfolding open_log
  open_log-Entered fork r t t' h =
      let ((opened, t1), ran, rest) =
        exec_bind-eq-ok (fopen_with_path env (setting osmud_log_file b'l' opts) (codes "w+")) _ t
          h in
      go opened t1 rest
    where
      go :
          (opened : Bool) (t1 : List Effect)
          → (if opened
                then (create_mudfile_storage env (setting mud_file_directory b'b' opts)
                    >>= use_storage env fork (configured opts))
                else pure (stops (negsuc 0)))
              t1
            ≡ ok (runs r, t')
          → Entered fork r
      go true t1 i = create_mudfile_storage-Entered fork r t1 t' i
      go false t1 i = cc

  -- Whenever `main` enters the loop over the events, every option was accepted, and its settings
  -- are the last option of each letter or the default; the flag that lets the validation of a MUD
  -- file fail is set exactly where -i was given. The messages of the settings fit their buffer, and
  -- the program is in the foreground by an option, or a forked child with a session of its own.
  pub main-Entered :
      (fork : Fork) (r : Running) (t t' : List Effect)
      → main env fork opts t ≡ ok (runs r, t')
      → (all_accepted opts ≡ true) × Entered fork r
  unfolding main
  main-Entered fork r t t' h = go (read_options opts unset) (read_options-by_last opts unset) h
    where
      accepted :
          (s : Settings) (b : Bool)
          → some s ≡ (if b then some (by_last opts unset) else none)
          → b ≡ true
      accepted s true e = refl
      accepted s false e = cc

      entered :
          (s : Settings)
          → some s ≡ some (by_last opts unset)
          → open_log env fork (check_for_defaults s) t ≡ ok (runs r, t')
          → Entered fork r
      entered s e i = open_log-Entered fork r t t' (
          sym (
            ap (λ x. open_log env fork x t)
              (ap check_for_defaults (cc) ∙ check_for_defaults-by_last opts))
          ∙ i)

      go :
          (o : Option Settings)
          → o ≡ (if all_accepted opts then some (by_last opts unset) else none)
          → (elim o as (λ x. Exec Ending) [
            | none ↦ pure (stops (pos 1))
            | some s ↦ open_log env fork (check_for_defaults s)
          ])
              t
            ≡ ok (runs r, t')
          → (all_accepted opts ≡ true) × Entered fork r
      go none e i = cc
      go (some s) e i = let a = accepted s (all_accepted opts) e in (a, entered s (e ∙ rw a refl) i)
