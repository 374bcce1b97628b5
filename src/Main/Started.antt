-- ===== src/Main/Started.antt =====
-- When `main` enters the loop over the events, and with which settings.
use osmud.Prelude.{
  ℕ, true, false, ◌||◌, Option, none, some, List, ◌∷◌, ◌++◌, ◌≡◌, refl, ap, ◌∙◌, ok, ◌⊎◌, inl, inr,
  Bool-cases,
}
use osmud.CString.{Bytes, codes, shown, has}
use osmud.Outside.{Env, Effect, open_file, open_events, exec_bind-ok, lift, lift-ok}
use osmud.Utils.Paths.{fopen_with_path, create_mudfile_storage, mkdir_path}
use osmud.Utils.Folders.{folders, all_made, attempts, mkdir_path-made, fopen_with_path-below}
use osmud.MudManager.{reset_dhcp_counters}
use osmud.Main.Settings.{
  Settings, Opt, unset, default_to, check_for_defaults, log_initial_settings,
  dns_file_name_with_path, mud_file_directory, base_config_file, default_dhcp_event_file, pid_file,
  osmud_log_file,
}
use osmud.Main.Options.{
  last_given, given, all_accepted, by_last, settings_fit, read_options-by_last,
  log_initial_settings-fits,
}
use osmud.Main.Start.{
  Fork, in_child, Running, runs, initial_log_level, become_daemon, watch_events, use_storage,
  open_log, main,
}

-- the argument of the last option with a letter, or the default
abbrev pub setting : Bytes → ℕ → List Opt → Bytes
setting text letter opts = elim (last_given letter opts none) [ some s ↦ s | none ↦ text ]

-- the settings after `checkForDefaults`
abbrev pub configured : List Opt → Settings
configured opts = record (by_last opts unset) {
  osmud_pid_file = some (setting pid_file b'x' opts);
  dhcp_event_file = some (setting default_dhcp_event_file b'e' opts);
  dns_white_list_file = some (setting dns_file_name_with_path b'w' opts);
  mud_file_data_directory = some (setting mud_file_directory b'b' opts);
  osmud_config_file = some (setting base_config_file b'c' opts);
  os_mud_log_file = some (setting osmud_log_file b'l' opts);
}

-- what `doProcessLoop` works with after the options
abbrev pub running : List Opt → Running
running opts = record {
  globals = record {
    dns_white_list_file = setting dns_file_name_with_path b'w' opts;
    mud_file_data_directory = setting mud_file_directory b'b' opts;
    no_fail_on_mud_validation = given b'i' opts false;
  };
  oms_log_level = initial_log_level (by_last opts unset);
  counters = reset_dhcp_counters;
}

default_to-setting :
    (text : Bytes) (letter : ℕ) (opts : List Opt)
    → default_to text (last_given letter opts none) ≡ some (setting text letter opts)
unfolding osmud.Utils.copystring
default_to-setting text letter opts = go (last_given letter opts none)
  where
    go :
        (value : Option Bytes)
        → default_to text value ≡ some (elim value [ some s ↦ s | none ↦ text ])
    go none = refl
    go (some s) = refl

pub check_for_defaults-by_last :
    (opts : List Opt) → check_for_defaults (by_last opts unset) ≡ configured opts
unfolding check_for_defaults
check_for_defaults-by_last opts =
    rw
      (
        default_to-setting pid_file b'x' opts,
        default_to-setting default_dhcp_event_file b'e' opts,
        default_to-setting dns_file_name_with_path b'w' opts,
        default_to-setting mud_file_directory b'b' opts,
        default_to-setting base_config_file b'c' opts,
        default_to-setting osmud_log_file b'l' opts,
      )
      refl

-- The program stays in the foreground, or it is the child of a fork with a session of its own.
abbrev pub Stays : Fork → List Opt → Type 0
Stays fork opts = (given b'd' opts false || given b'k' opts false ≡ true) ⊎ (fork ≡ in_child true)

module _ (env : Env) (fork : Fork) (opts : List Opt) where
  abbrev event_file : Bytes
  event_file = setting default_dhcp_event_file b'e' opts

  abbrev data_directory : Bytes
  data_directory = setting mud_file_directory b'b' opts

  watch_events-runs :
      (r : Running) (t : List Effect)
      → env.opens t (open_events event_file) ≡ true
      → Stays fork opts
      → watch_events env fork (configured opts) r t ≡ ok (runs r, open_events event_file ∷ t)
  unfolding watch_events become_daemon
  watch_events-runs r t opened (inl e) = rw opened (rw e refl)
  watch_events-runs r t opened (inr e) =
      rw (opened, e)
        (elim (Bool-cases (given b'd' opts false || given b'k' opts false)) [
          | inl stays ↦ rw stays refl
          | inr forks ↦ rw forks refl
        ])

  settings_logged :
      settings_fit (configured opts) ≡ true
      → log_initial_settings (configured opts)
        ≡ ok (codes "    osMUD logger path and file: " ++ setting osmud_log_file b'l' opts)
  unfolding shown
  settings_logged fit = log_initial_settings-fits (configured opts) ∙ rw fit refl

  log_opened :
      (a b : Bytes) (t : List Effect)
      → setting osmud_log_file b'l' opts ≡ a ++ (b'/' ∷ b)
      → has b'/' b ≡ false
      → all_made env (folders a) t ≡ true
      → env.opens (attempts env (folders a) t) (open_file (a ++ (b'/' ∷ b)) (codes "w+")) ≡ true
      → fopen_with_path env (setting osmud_log_file b'l' opts) (codes "w+") t
        ≡ ok (true, open_file (a ++ (b'/' ∷ b)) (codes "w+") ∷ attempts env (folders a) t)
  log_opened a b t path free above opened =
      ap (λ p. fopen_with_path env p (codes "w+") t) path
      ∙ fopen_with_path-below env a b (codes "w+") t free
      ∙ rw above (rw opened refl)

  use_storage-runs :
      (t : List Effect)
      → settings_fit (configured opts) ≡ true
      → env.opens t (open_events event_file) ≡ true
      → Stays fork opts
      → use_storage env fork (configured opts) (0, data_directory) t
        ≡ ok (runs (running opts), open_events event_file ∷ t)
  unfolding use_storage initial_log_level
  use_storage-runs t fit opened stays =
      exec_bind-ok (lift (log_initial_settings (configured opts))) _ t
        (lift-ok _ t (settings_logged fit))
      ∙ watch_events-runs (running opts) t opened stays

  -- Where every option is accepted, the log and its directories and the directory of the MUD files
  -- can be made, the messages of the settings fit their buffer, the file of events opens, and the
  -- program stays in the foreground or becomes a daemon: `main` enters the loop over the events, with
  -- the last option of each letter or the default as its settings. Before that it makes the
  -- directories above the log, opens the log, makes the directories of the MUD files and opens the
  -- file of events, in this order.
  pub main-runs :
      (a b : Bytes) (t : List Effect)
      → all_accepted opts ≡ true
      → setting osmud_log_file b'l' opts ≡ a ++ (b'/' ∷ b)
      → has b'/' b ≡ false
      → all_made env (folders a) t ≡ true
      → env.opens (attempts env (folders a) t) (open_file (a ++ (b'/' ∷ b)) (codes "w+")) ≡ true
      → all_made env
          (folders data_directory)
          (open_file (a ++ (b'/' ∷ b)) (codes "w+") ∷ attempts env (folders a) t)
        ≡ true
      → settings_fit (configured opts) ≡ true
      → env.opens
          (attempts env
            (folders data_directory)
            (open_file (a ++ (b'/' ∷ b)) (codes "w+") ∷ attempts env (folders a) t))
          (open_events event_file)
        ≡ true
      → Stays fork opts
      → main env fork opts t
        ≡ ok (
          runs (running opts),
          open_events event_file
              ∷ attempts env
                  (folders data_directory)
                  (open_file (a ++ (b'/' ∷ b)) (codes "w+") ∷ attempts env (folders a) t),
        )
  unfolding main open_log create_mudfile_storage mkdir_path
  main-runs a b t accepted path free above opened below' fit watched stays =
      rw (read_options-by_last opts unset, accepted, main)
        (ap (λ s. open_log env fork s t) (check_for_defaults-by_last opts)
          ∙ exec_bind-ok (fopen_with_path env (setting osmud_log_file b'l' opts) (codes "w+")) _ t
              (log_opened a b t path free above opened)
          ∙ exec_bind-ok (mkdir_path env data_directory) (use_storage env fork (configured opts)) _
              (mkdir_path-made env data_directory _ below')
          ∙ use_storage-runs _ fit watched stays)
