-- ===== src/Main/Start.antt =====
-- src/osmud.c: `main` up to the start of `doProcessLoop`, and `writePidFile`.
use osmud.Prelude.{ℕ, zero, suc, Bool, true, false, ◌||◌, none, some, List, ◌++◌, if◌then◌else◌}
use osmud.Prelude.Int.{ℤ, pos, negsuc}
use osmud.CString.{Bytes, codes}
use osmud.CString.Decimal.{decimal}
use osmud.Outside.{Env, Exec, print_to, open_events, call, open_by, lift, pure, deref, ◌>>=◌, ◌>>◌}
use osmud.Utils.Paths.{fopen_with_path, create_mudfile_storage}
use osmud.Logging.{SeverityClass, oms_debug, get_log_level_from_arg}
use osmud.MudManager.Access.{Globals}
use osmud.MudManager.{Counters, reset_dhcp_counters}
use osmud.Main.Settings.{
  Settings, Opt, unset, read_options, check_for_defaults, log_initial_settings,
}

-- How `fork` returns, and in the child whether `setsid` gives a session.
pub data Fork : Type 0 where
  fork_failed : Fork
  in_parent : ℕ → Fork
  in_child : Bool → Fork

-- What `doProcessLoop` works with.
pub record Running : Type 0 where
  pub globals : Globals
  pub oms_log_level : SeverityClass
  pub counters : Counters

-- The program stops with an exit status, or it enters `doProcessLoop`.
pub data Ending : Type 0 where
  stops : ℤ → Ending
  runs : Running → Ending

-- the argument of `setLoggingLevel`
unfoldable pub initial_log_level : Settings → SeverityClass
initial_log_level s = if s.debug_mode then oms_debug else get_log_level_from_arg s.os_log_level

module _ (env : Env) where
  -- The result is 1 where the file was not opened.
  unfoldable pub write_pid_file : Settings → ℕ → Exec ℕ
  write_pid_file s os_mud_pid = do
    path ← deref s.osmud_pid_file
    opened ← fopen_with_path env path (codes "w")
    if opened then call env (print_to path (decimal os_mud_pid ++ codes "\n")) >> pure 0 else pure 1

  module _ (fork : Fork) where
    -- the daemon: the parent writes the PID file and exits
    unfoldable pub become_daemon : Settings → Running → Exec Ending
    unfolding write_pid_file
    become_daemon s r = elim fork [
      | fork_failed ↦ pure (stops (pos 1))
      | in_parent process_id ↦ write_pid_file s process_id >> pure (stops (pos 0))
      | in_child true ↦ pure (runs r)
      | in_child false ↦ pure (stops (pos 1))
    ]

    -- from the call of `open` on
    unfoldable pub watch_events : Settings → Running → Exec Ending
    unfolding become_daemon
    watch_events s r = do
      dhcp_event_file ← deref s.dhcp_event_file
      opened ← open_by env (open_events dhcp_event_file)
      if opened
          then (if s.debug_mode || s.foreground_mode then pure (runs r) else become_daemon s r)
          else pure (stops (negsuc 0))

    -- behind `createMudfileStorage`, which leaves the directory of the MUD files as it is or cut off
    unfoldable pub use_storage : Settings → ℕ × Bytes → Exec Ending
    unfolding watch_events initial_log_level
    use_storage s (suc result, data_directory) = pure (stops (negsuc 0))
    use_storage s (zero, data_directory) = do
      lift (log_initial_settings (record s { mud_file_data_directory = some data_directory }))
      dns_white_list_file ← deref s.dns_white_list_file
      watch_events s (record {
        globals = record {
          dns_white_list_file = dns_white_list_file;
          mud_file_data_directory = data_directory;
          no_fail_on_mud_validation = s.no_fail_on_mud_validation;
        };
        oms_log_level = initial_log_level s;
        counters = reset_dhcp_counters;
      })

    -- from the open of the log on
    unfoldable pub open_log : Settings → Exec Ending
    unfolding use_storage
    open_log s = do
      os_mud_log_file ← deref s.os_mud_log_file
      logger ← fopen_with_path env os_mud_log_file (codes "w+")
      if logger
          then (deref s.mud_file_data_directory >>= λ directory.
              create_mudfile_storage env directory >>= use_storage s)
          else pure (stops (negsuc 0))

    -- `main` with the options that `getopt` returns. The help, the version and an unknown option
    -- exit with `EXIT_FAILURE`.
    unfoldable pub main : List Opt → Exec Ending
    unfolding open_log
    main opts = elim (read_options opts unset) [
      | none ↦ pure (stops (pos 1))
      | some s ↦ open_log (check_for_defaults s)
    ]
