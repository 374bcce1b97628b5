-- ===== src/Main.antt =====
-- src/osmud.c: `pollDhcpFile` and a round of `doProcessLoop`; the children have the rest of it.
pub mod ReadLine
pub mod Settings
pub mod Usage
pub mod Options
pub mod Start
pub mod Started
pub mod Safe
pub mod Lines
pub mod Loop
pub mod Rounds
pub mod Backlog
pub mod Reach
pub mod Whole
use osmud.Prelude.{
  ℕ, ◌+◌, Bool, true, false, Option, none, some, List, [], ◌∷◌, ◌++◌, Outcome, ok, fault,
  out_of_bounds, if◌then◌else◌, ◌==◌, ltb,
}
use osmud.CString.{Bytes, codes}
use osmud.Outside.{Env, Exec, Effect, lift, pure, ◌>>=◌, ◌>>◌}
use osmud.DhcpEvent.{DhcpEvent, process_dhcp_event_from_log, clear_dhcp_event_record}
use osmud.MudParser.Values.{JsonC}
use osmud.MudManager.Access.{Globals}
use osmud.MudManager.{Counters, execute_open_mud_dhcp_action}
use osmud.Main.ReadLine.{read_line}

-- `MAXLINE`
abbrev pub maxline : ℕ
maxline = 1024

abbrev pub heart_beat_log_interval : ℕ
heart_beat_log_interval = 720

-- What `doProcessLoop` keeps from round to round; `fd` is what the file of events has left.
pub record LoopState : Type 0 where
  pub dhcp_event_line : List ℕ
  pub dhcp_event : DhcpEvent
  pub counters : Counters
  pub heart_beat_cycle : ℕ
  pub fd : Bytes

-- The C string in a buffer; without a NUL it is read on behind the buffer.
unfoldable pub c_string : List ℕ → Outcome Bytes
c_string [] = fault out_of_bounds
c_string (c ∷ cs) =
    let rest = c_string cs in
    if c == 0 then ok [] else elim rest [ ok s ↦ ok (c ∷ s) | fault e ↦ fault e ]

-- With what `select` found: is there a line, the buffer, and what is left. That `select` fails ends
-- the program.
unfoldable pub poll_dhcp_file : Bool → List ℕ → Bytes → Outcome (Bool × List ℕ × Bytes)
poll_dhcp_file false line fd = ok (false, line, fd)
poll_dhcp_file true line fd = elim (read_line line maxline fd) [
  | ok (k, line', fd') ↦ ok (ltb 1 k, line', fd')
  | fault e ↦ fault e
]

-- Was the heartbeat logged, and the next cycle.
unfoldable pub heart_beat : ℕ → Bool × ℕ
heart_beat heart_beat_cycle =
    if ltb heart_beat_log_interval heart_beat_cycle
    then (true, 0)
    else (false, heart_beat_cycle + 1)

module _ (env : Env) (jc : JsonC) (g : Globals) where
  -- what is done with the event of a line
  unfoldable pub process_event : ℕ → Counters → DhcpEvent → Exec (Counters × DhcpEvent)
  process_event valid counters event =
      if valid == 0
      then pure (counters, event)
      else execute_open_mud_dhcp_action env jc g counters event

  -- what is done where a line was read
  unfoldable pub process_line : Bool → List ℕ → Counters → DhcpEvent → Exec (Counters × DhcpEvent)
  unfolding process_event c_string
  process_line false line counters event = pure (counters, event)
  process_line true line counters event = do
    log_message ← lift (c_string line)
    (valid, event') ← lift (process_dhcp_event_from_log (some log_message) event)
    process_event valid counters event'

  -- A round of the loop, with what was written to the file since the last.
  unfoldable pub process_round : Bool → Bytes → LoopState → Exec LoopState
  unfolding process_line poll_dhcp_file heart_beat
  process_round ready arrived s = do
    (valid, line, fd) ← lift (poll_dhcp_file ready s.dhcp_event_line (s.fd ++ arrived))
    (counters, event) ← process_line valid line s.counters s.dhcp_event
    pure (record {
      dhcp_event_line = line;
      dhcp_event = clear_dhcp_event_record event;
      counters = counters;
      heart_beat_cycle = (heart_beat s.heart_beat_cycle).1;
      fd = fd;
    })
