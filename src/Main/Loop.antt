-- ===== src/Main/Loop.antt =====
-- src/osmud.c: `doProcessLoop` from its start, for a number of rounds.
use osmud.Prelude.{ℕ, Bool, none, List, [], ◌∷◌}
use osmud.CString.{Bytes, unwritten}
use osmud.Outside.{Env, Exec, pure, ◌>>=◌}
use osmud.DhcpEvent.{DhcpEvent, none_action}
use osmud.MudParser.Values.{JsonC}
use osmud.MudManager.Access.{Globals}
use osmud.MudManager.{Counters}
use osmud.Main.{LoopState, process_round}

-- the record of the event, before the first line
abbrev pub first_event : DhcpEvent
first_event = record {
  date = none;
  action = none_action;
  lan_device = unwritten;
  mac_address = none;
  ip_address = none;
  host_name = none;
  dhcp_request_flags = none;
  dhcp_vendor = none;
  mud_file_url = none;
  mud_sig_url = none;
  mud_file_storage_location = none;
  mud_sig_file_storage_location = none;
}

-- The start: what the buffer happens to hold, and what the file of events has already.
abbrev pub first_state : Counters → List ℕ → Bytes → LoopState
first_state counters buffer fd = record {
  dhcp_event_line = buffer;
  dhcp_event = first_event;
  counters = counters;
  heart_beat_cycle = 0;
  fd = fd;
}

-- The rounds, each with what `select` finds and what was written since the last.
unfoldable pub do_process_loop :
    Env → JsonC → Globals → List (Bool × Bytes) → LoopState → Exec LoopState
do_process_loop env jc g [] s = pure s
do_process_loop env jc g ((ready, arrived) ∷ more) s =
    process_round env jc g ready arrived s >>= do_process_loop env jc g more
