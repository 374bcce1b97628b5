-- ===== src/Tests/Log.antt =====
-- The lines of the log, and the lines that wait in the file of events.
use osmud.Prelude.{
  ◌++◌, true, List, [], ◌∷◌, ◌≡◌, refl, arith, ok, fault, out_of_bounds, length, replicate,
}
use osmud.CString.{codes, has}
use osmud.CString.Laws.{All-has}
use osmud.CString.Decimal.{decimal}
use osmud.DhcpEvent.{old_action, del_action, get_dhcp_event_text}
use osmud.DhcpEvent.RoundTrip.{leased, event_line}
use osmud.Logging.{oms_crit, oms_info}
use osmud.Logging.Entries.{
  Tm, oms_subsys_general, time_stamp, log_oms_message, initialize_message_logging,
}
use osmud.Logging.Stamps.{IsTime, length-time_stamp, log_oms_message-initialize}
use osmud.MudManager.{Counters}
use osmud.MudManager.Statistics.{
  IsCounted, build_dhcp_events_log_msg, build_dhcp_events_log_msg-whole,
}
use mathlib.Core.List.{append-nil}
use osmud.MudManager.Handlers.{plain_effects}
use osmud.Main.Rounds.{after_line, process_round-first_line}
use osmud.Main.Reach.{start, round, IsSound, reached-IsSound}
use osmud.Main.{LoopState}
use osmud.Main.Loop.{do_process_loop, first_state}
use osmud.Main.Backlog.{Entry, IsPlain, lines_of, all_effects, count_all, do_process_loop-lines_of}
use osmud.Tests.Events.{lease-IsPrintable}
use osmud.Tests.Samples.{calm, globals, json_c, lease}

-- the 27th of May 2018
abbrev moment : Tm
moment = record { tm_year = 118; tm_mon = 4; tm_mday = 27; tm_hour = 13; tm_min = 33; tm_sec = 8 }

-- The month that is printed counts from 0.
month_from_zero : time_stamp moment ≡ codes "2018-04-27 13:33:08"
unfolding time_stamp decimal
month_from_zero = refl

moment-IsTime : IsTime moment
moment-IsTime = record {
  year = omega arith;
  mon = omega arith;
  mday = omega arith;
  hour = omega arith;
  min = omega arith;
  sec = omega arith;
}

stamp_size : length (time_stamp moment) ≡ 19
stamp_size = length-time_stamp moment moment-IsTime

message_600 :
    log_oms_message initialize_message_logging oms_info moment oms_crit oms_subsys_general 600
    ≡ fault out_of_bounds
unfolding osmud.Logging.is_logged
message_600 = log_oms_message-initialize oms_info moment oms_crit oms_subsys_general 600

abbrev counts : Counters
counts = record { new_events = 12; old_events = 345; delete_events = 0; error_events = 7 }

counts-IsCounted : IsCounted counts
counts-IsCounted = record {
  new_small = omega arith;
  old_small = omega arith;
  delete_small = omega arith;
  error_small = omega arith;
}

build_dhcp_events_log_msg-whole_run :
    build_dhcp_events_log_msg 2048 counts
    ≡ codes "OSMUD:DHCP Stats: New: 12 | Old: 345 | Delete: 0 | Errors: 7"
unfolding decimal
build_dhcp_events_log_msg-whole_run =
    build_dhcp_events_log_msg-whole 2048 counts counts-IsCounted (omega arith)

-- two events that wait in the file
abbrev pub waiting : List Entry
waiting = (old_action, lease) ∷ (del_action, lease) ∷ []

pub old-IsPlain : IsPlain (old_action, lease)
unfolding has event_line get_dhcp_event_text
old-IsPlain = record {
  printable = lease-IsPrintable;
  line = All-has 10 (event_line old_action lease) refl;
  text = All-has 0 (event_line old_action lease) refl;
  more = omega arith;
  less = omega arith;
  plain = λ e. cc;
}

pub del-IsPlain : IsPlain (del_action, lease)
unfolding has event_line get_dhcp_event_text
del-IsPlain = record {
  printable = lease-IsPrintable;
  line = All-has 10 (event_line del_action lease) refl;
  text = All-has 0 (event_line del_action lease) refl;
  more = omega arith;
  less = omega arith;
  plain = λ e. cc;
}

abbrev at_first : LoopState
at_first = first_state counts (replicate 1024 0) (lines_of waiting)

do_process_loop-lines_of_example :
    (s' : LoopState) × (do_process_loop calm json_c globals
        ((true, []) ∷ (true, []) ∷ [])
        at_first
        []
      ≡ ok (s', all_effects calm json_c globals waiting []))
    × (s'.fd ≡ [])
    × (s'.counters ≡ record counts { old_events = 346; delete_events = 1 })
unfolding count_all
do_process_loop-lines_of_example =
    do_process_loop-lines_of calm json_c globals waiting at_first [] (old-IsPlain, (del-IsPlain, _))
      refl refl

reached-IsSound_example :
    IsSound at_first 1 (
      after_line calm json_c globals old_action lease
        (lines_of ((del_action, lease) ∷ []))
        at_first)
unfolding lines_of
reached-IsSound_example =
    reached-IsSound calm json_c globals counts (replicate 1024 0) (lines_of waiting) [] 1
      (after_line calm json_c globals old_action lease (lines_of ((del_action, lease) ∷ []))
        at_first)
      (plain_effects calm json_c globals old_action (leased old_action lease at_first.dhcp_event)
        ++ [])
      (round true [] start (
        process_round-first_line calm json_c globals at_first [] old_action lease
          (lines_of ((del_action, lease) ∷ [])) [] old-IsPlain.printable old-IsPlain.line
          old-IsPlain.text refl old-IsPlain.more old-IsPlain.less old-IsPlain.plain
          (append-nil (lines_of waiting))))
