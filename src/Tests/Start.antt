-- ===== src/Tests/Start.antt =====
-- The start of the program, its directories and its options.
use osmud.Prelude.{
  true, none, some, List, [], ◌∷◌, ◌≡◌, refl, ok, fault, out_of_bounds, if◌then◌else◌, inl,
  replicate,
}
use osmud.CString.{codes, has, shown, str_eq, strrchr}
use osmud.CString.Decimal.{decimal}
use osmud.Outside.{Env, Effect, mkdir, open_file, open_events}
use osmud.Utils.Paths.{eexist, mkdir_path, fopen_with_path}
use osmud.Utils.Folders.{
  folders, folders_from, make_all, all_made, attempts, mkdir_path-make_all, fopen_with_path-below,
}
use osmud.Main.Settings.{Opt, unset, read_options, log_initial_settings}
use osmud.Main.Options.{
  last_given, given, read_options-by_last, log_initial_settings-fits, all_accepted,
}
use osmud.Main.Start.{fork_failed, runs, main}
use osmud.Main.Started.{running, main-runs}
use osmud.Main.Safe.{Entered, main-Entered}
use osmud.Tests.Samples.{calm}

-- no directory can be made but "/var", which exists
abbrev full : Env
full = record calm {
  status = λ t e. elim e [ mkdir path ↦ if str_eq path (codes "/var") then eexist else 28 | _ ↦ 0 ];
}

mkdir_path-make_all_example :
    mkdir_path full (codes "/var/state/osmud") []
    ≡ make_all full (folders (codes "/var/state/osmud")) (codes "/var/state/osmud") []
mkdir_path-make_all_example = mkdir_path-make_all full (codes "/var/state/osmud") []

mkdir_stops :
    mkdir_path full (codes "/var/state/osmud") []
    ≡ ok ((1, codes "/var/state"), mkdir (codes "/var/state") ∷ mkdir (codes "/var") ∷ [])
unfolding mkdir_path str_eq strrchr
mkdir_stops = refl

fopen_with_path-below_run :
    fopen_with_path calm (codes "/tmp/o.log") (codes "w") []
    ≡ ok (true, open_file (codes "/tmp/o.log") (codes "w") ∷ mkdir (codes "/tmp") ∷ [])
unfolding all_made attempts has folders_from
fopen_with_path-below_run =
    fopen_with_path-below calm (codes "/tmp") (codes "o.log") (codes "w") [] refl

-- in the foreground, with two log files of which the second counts
abbrev pub options : List Opt
options =
    (b'k', none)
    ∷ (b'l', some (codes "/x.log"))
    ∷ (b'l', some (codes "/tmp/o.log"))
    ∷ (b'b', some (codes "/m"))
    ∷ []

read_options-by_last_example :
    read_options options unset
    ≡ some (record unset {
      foreground_mode = true;
      os_mud_log_file = some (codes "/tmp/o.log");
      mud_file_data_directory = some (codes "/m");
    })
unfolding all_accepted last_given given
read_options-by_last_example = read_options-by_last options unset

-- a file of events whose name is too long for the log
log_initial_settings-fits_example :
    log_initial_settings (record unset { dhcp_event_file = some (replicate 4090 b'x') })
    ≡ fault out_of_bounds
unfolding shown
log_initial_settings-fits_example =
    log_initial_settings-fits (record unset { dhcp_event_file = some (replicate 4090 b'x') })

abbrev pub started : List Effect
started =
    open_events (codes "/var/log/dhcpmasq.txt")
    ∷ mkdir (codes "/m")
    ∷ open_file (codes "/tmp/o.log") (codes "w+")
    ∷ mkdir (codes "/tmp")
    ∷ []

main-runs_example : main calm fork_failed options [] ≡ ok (runs (running options), started)
unfolding all_accepted all_made attempts has shown last_given given folders_from
main-runs_example =
    main-runs calm fork_failed options (codes "/tmp") (codes "o.log") [] refl refl refl refl refl
      refl refl refl (inl refl)

main-Entered_example :
    (all_accepted options ≡ true) × Entered calm options fork_failed (running options)
unfolding all_accepted all_made attempts has shown last_given given folders_from
main-Entered_example = main-Entered calm options fork_failed (running options) [] started (
    main-runs calm fork_failed options (codes "/tmp") (codes "o.log") [] refl refl refl refl refl
      refl refl refl (inl refl))

a_number : decimal 2018 ≡ codes "2018"
unfolding decimal
a_number = refl
