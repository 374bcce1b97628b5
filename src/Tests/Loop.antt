-- ===== src/Tests/Loop.antt =====
-- Lines of the file of events, and rounds of the loop.
use osmud.Prelude.{
  suc, true, [], ◌∷◌, ◌++◌, ◌≡◌, ◌≢◌, refl, ok, fault, out_of_bounds, replicate, length, drop, ◌/◌,
  ◌%◌, arith,
}
use osmud.CString.{Bytes, codes, has}
use osmud.CString.Laws.{All-has}
use osmud.DhcpEvent.{del_action, new_action, clear_dhcp_event_record, get_dhcp_event_text}
use osmud.DhcpEvent.RoundTrip.{event_line, leased}
use osmud.MudManager.Handlers.{plain_effects}
use osmud.Main.ReadLine.{read_line}
use osmud.Main.Lines.{read_line_lem, read_line-end}
use osmud.Main.Rounds.{heart_beats, heart_beats_lem, process_round-event_line}
use osmud.Main.{LoopState, heart_beat, process_round}
use osmud.Tests.Events.{lease-IsPrintable}
use osmud.Tests.Samples.{blank_event, calm, globals, json_c, lease}

-- a line of four bytes does not fit a buffer of four bytes with its NUL
read_line_lem_example :
    read_line (7 ∷ 7 ∷ 7 ∷ 7 ∷ []) 4 (codes "line" ++ (10 ∷ codes "rest")) ≡ fault out_of_bounds
unfolding has
read_line_lem_example =
    read_line_lem (7 ∷ 7 ∷ 7 ∷ 7 ∷ []) (codes "line") (codes "rest")
      (All-has 10 (codes "line") refl)

read_line-end_run :
    read_line (7 ∷ 7 ∷ 7 ∷ 7 ∷ []) 4 (codes "ab") ≡ ok (3, codes "ab" ++ (0 ∷ 7 ∷ []), [])
unfolding has
read_line-end_run = read_line-end (7 ∷ 7 ∷ 7 ∷ 7 ∷ []) (codes "ab") (All-has 10 (codes "ab") refl)

heart_beats_lem_example : ((heart_beats 723).0 ≡ 723 / 722) × ((heart_beats 723).1 ≡ 723 % 722)
heart_beats_lem_example = heart_beats_lem 723

abbrev start : LoopState
start = record {
  dhcp_event_line = replicate 1024 0;
  dhcp_event = blank_event;
  counters = record { new_events = 0; old_events = 0; delete_events = 0; error_events = 0 };
  heart_beat_cycle = 0;
  fd = [];
}

abbrev line : Bytes
line = event_line del_action lease

is_old : del_action ≢ new_action
is_old = λ e. cc

process_round-event_line_example :
    process_round calm json_c globals true (line ++ (10 ∷ [])) start []
    ≡ ok (
      record {
        dhcp_event_line = line ++ (0 ∷ drop (suc (length line)) (replicate 1024 0));
        dhcp_event = clear_dhcp_event_record (leased del_action lease blank_event);
        counters = record start.counters { delete_events = 1 };
        heart_beat_cycle = (heart_beat 0).1;
        fd = [];
      },
      plain_effects calm json_c globals del_action (leased del_action lease blank_event) ++ [],
    )
unfolding has event_line get_dhcp_event_text
process_round-event_line_example =
    process_round-event_line calm json_c globals start del_action lease [] lease-IsPrintable
      (All-has 10 line refl) (All-has 0 line refl) refl (omega arith) (omega arith) is_old refl
