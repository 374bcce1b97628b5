-- ===== src/Tests/Whole.antt =====
-- The program from its options to the lines that wait for it.
use osmud.Prelude.{true, inl, [], ◌∷◌, ◌≡◌, refl, ok, replicate}
use osmud.CString.{codes, has, shown}
use osmud.Utils.Folders.{folders_from, all_made, attempts}
use osmud.Main.Options.{last_given, given, all_accepted}
use osmud.Main.Start.{fork_failed}
use osmud.Main.Started.{running, main-runs}
use osmud.Main.{LoopState}
use osmud.Main.Backlog.{lines_of, all_effects, count_all}
use osmud.Main.Whole.{looping, osmud_main, osmud_main-lines_of}
use osmud.MudManager.{reset_dhcp_counters}
use osmud.Tests.Samples.{calm, json_c}
use osmud.Tests.Start.{options, started}
use osmud.Tests.Log.{waiting, old-IsPlain, del-IsPlain}

osmud_main-lines_of_example :
    (s : LoopState) × (osmud_main calm json_c fork_failed options
        (replicate 1024 0)
        (lines_of waiting)
        ((true, []) ∷ (true, []) ∷ [])
        []
      ≡ ok (looping s, all_effects calm json_c (running options).globals waiting started))
    × (s.fd ≡ [])
    × (s.counters ≡ record { new_events = 0; old_events = 1; delete_events = 1; error_events = 0 })
unfolding all_accepted all_made attempts has shown last_given given folders_from count_all
    reset_dhcp_counters
osmud_main-lines_of_example =
    osmud_main-lines_of calm json_c fork_failed options (replicate 1024 0) waiting (running options)
      [] started
      (main-runs calm fork_failed options (codes "/tmp") (codes "o.log") [] refl refl refl refl refl
        refl refl refl (inl refl))
      refl (old-IsPlain, (del-IsPlain, _))
