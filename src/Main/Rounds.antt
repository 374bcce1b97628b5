-- ===== src/Main/Rounds.antt =====
-- Rounds of `doProcessLoop`: its heartbeat, and what a line of the script does.
use mathlib.Core.Path.{subst}
use osmud.Main.ReadLine.{read_line}
use osmud.Prelude.{
  ℕ, zero, suc, ◌+◌, ◌*◌, ◌%◌, ◌/◌, ◌<◌, true, false, List, [], ◌∷◌, ◌++◌, some, ◌≡◌, ◌≢◌, refl, ap,
  ◌∙◌, arith, ok, if◌then◌else◌, ◌==◌, lt→ltb, length, drop, All,
}
use osmud.CString.{Bytes}
use osmud.Outside.{Env, Effect, exec_bind-ok, lift-ok, lift}
use osmud.DhcpEvent.{
  DhcpEvent, DhcpAction, new_action, clear_dhcp_event_record, process_dhcp_event_from_log,
}
use osmud.DhcpEvent.RoundTrip.{Lease, IsPrintable, event_line, process-event_line, leased}
use osmud.MudParser.Values.{JsonC}
use osmud.MudManager.Access.{Globals}
use osmud.MudManager.{Counters}
use osmud.MudManager.Handlers.{counted, plain_effects, execute_open_mud_dhcp_action_plain}
use osmud.Main.Lines.{IsLine, read_line_lem}
use osmud.Main.{
  LoopState, maxline, c_string, heart_beat, poll_dhcp_file, process_event, process_line,
  process_round,
}

-- The heartbeats that were logged, and the cycle, after a number of rounds.
unfoldable pub heart_beats : ℕ → ℕ × ℕ
unfolding heart_beat
heart_beats zero = (0, 0)
heart_beats (suc n) =
    let (logged, cycle) = heart_beats n in
    let (now, next) = heart_beat cycle in (if now then logged + 1 else logged, next)

beat :
    (logged cycle : ℕ)
    → cycle < 722
    → ((if (heart_beat cycle).0 then logged + 1 else logged) * 722 + (heart_beat cycle).1
        ≡ suc (logged * 722 + cycle))
      × ((heart_beat cycle).1 < 722)
unfolding heart_beat
beat logged cycle h = ground arith

heart_beats-total :
    (n : ℕ) → ((heart_beats n).0 * 722 + (heart_beats n).1 ≡ n) × ((heart_beats n).1 < 722)
unfolding heart_beats
heart_beats-total zero = (refl, omega arith)
heart_beats-total (suc n) =
    let (total, small) = heart_beats-total n in
    let (grown, small') = beat (heart_beats n).0 (heart_beats n).1 small in
    (grown ∙ ap suc total, small')

-- After `n` rounds the heartbeat was logged `n / 722` times, and the cycle is `n % 722`: it is
-- logged in each 722nd round.
pub heart_beats_lem : (n : ℕ) → ((heart_beats n).0 ≡ n / 722) × ((heart_beats n).1 ≡ n % 722)
heart_beats_lem n =
    let (total, small) = heart_beats-total n in
    (omega (arith, total, small), omega (arith, total, small))

-- The bytes of a C string.
abbrev pub IsText : Bytes → Type 0
IsText s = All (λ c. (c == 0) ≡ false) s

c_string-append : (s : Bytes) (rest : List ℕ) → IsText s → c_string (s ++ (0 ∷ rest)) ≡ ok s
unfolding c_string
c_string-append [] rest h = refl
c_string-append (c ∷ cs) rest h = rw (h.0, c_string-append cs rest h.1) refl

poll_dhcp_file-line :
    (buffer : List ℕ) (line rest : Bytes)
    → IsLine line
    → length buffer ≡ maxline
    → 1 < length line
    → length line < maxline
    → poll_dhcp_file true buffer (line ++ (10 ∷ rest))
      ≡ ok (true, line ++ (0 ∷ drop (suc (length line)) buffer), rest)
unfolding poll_dhcp_file
poll_dhcp_file-line buffer line rest h size more less =
    let short = lt→ltb (length line) (length buffer) (omega (arith, size, less)) in
    let e =
      subst
        (λ m.
          read_line buffer m (line ++ (10 ∷ rest))
          ≡ ok (length line, line ++ (0 ∷ drop (suc (length line)) buffer), rest))
        size (read_line_lem buffer line rest h ∙ rw short refl) in
    rw (e, poll_dhcp_file) (rw (lt→ltb 1 (length line) more) refl)

module _ (env : Env) (jc : JsonC) (g : Globals) where
  process_line-event_line :
      (c : Counters) (action : DhcpAction) (l : Lease) (event : DhcpEvent) (rest : List ℕ)
      (t : List Effect)
      → IsPrintable l
      → IsText (event_line action l)
      → action ≢ new_action
      → process_line env jc g true (event_line action l ++ (0 ∷ rest)) c event t
        ≡ ok (
          (counted action c, leased action l event),
          plain_effects env jc g action (leased action l event) ++ t,
        )
  unfolding process_line process_event
  process_line-event_line c action l event rest t p text plain =
      exec_bind-ok (lift (c_string (event_line action l ++ (0 ∷ rest)))) _ t
        (lift-ok _ t (c_string-append (event_line action l) rest text))
      ∙ exec_bind-ok (lift (process_dhcp_event_from_log (some (event_line action l)) event)) _ t
          (lift-ok _ t (process-event_line action l event p))
      ∙ execute_open_mud_dhcp_action_plain env jc g c (leased action l event) t plain

  -- the state after the round of a line
  abbrev pub after_line : DhcpAction → Lease → Bytes → LoopState → LoopState
  after_line action l rest s = record {
    dhcp_event_line =
        event_line action l ++ (0 ∷ drop (suc (length (event_line action l))) s.dhcp_event_line);
    dhcp_event = clear_dhcp_event_record (leased action l s.dhcp_event);
    counters = counted action s.counters;
    heart_beat_cycle = (heart_beat s.heart_beat_cycle).1;
    fd = rest;
  }

  -- A round in which the file begins with a line of the script.
  pub process_round-first_line :
      (s : LoopState) (arrived : Bytes) (action : DhcpAction) (l : Lease) (rest : Bytes)
      (t : List Effect)
      → IsPrintable l
      → IsLine (event_line action l)
      → IsText (event_line action l)
      → length s.dhcp_event_line ≡ maxline
      → 1 < length (event_line action l)
      → length (event_line action l) < maxline
      → action ≢ new_action
      → s.fd ++ arrived ≡ event_line action l ++ (10 ∷ rest)
      → process_round env jc g true arrived s t
        ≡ ok (
          after_line action l rest s,
          plain_effects env jc g action (leased action l s.dhcp_event) ++ t,
        )
  unfolding process_round
  process_round-first_line s arrived action l rest t p line text size more less plain held =
      exec_bind-ok (lift (poll_dhcp_file true s.dhcp_event_line (s.fd ++ arrived))) _ t (
        lift-ok _ t (
          ap (λ fd. poll_dhcp_file true s.dhcp_event_line fd) held
          ∙ poll_dhcp_file-line s.dhcp_event_line (event_line action l) rest line size more less))
      ∙ exec_bind-ok
          (process_line env jc g true
            (event_line action l
              ++ (0 ∷ drop (suc (length (event_line action l))) s.dhcp_event_line))
            s.counters s.dhcp_event)
          _ t
          (process_line-event_line s.counters action l s.dhcp_event
            (drop (suc (length (event_line action l))) s.dhcp_event_line) t p text plain)

  -- A round in which a line of the script arrives, and nothing was left in the file, for an action
  -- other than NEW and a lease whose fields are not empty and hold no delimiter. With no newline
  -- and no NUL in it, more than one byte, and less than the buffer holds: the event of the lease is
  -- counted, its commands run, its record is cleared, and nothing of the line is left.
  pub process_round-event_line :
      (s : LoopState) (action : DhcpAction) (l : Lease) (t : List Effect)
      → IsPrintable l
      → IsLine (event_line action l)
      → IsText (event_line action l)
      → length s.dhcp_event_line ≡ maxline
      → 1 < length (event_line action l)
      → length (event_line action l) < maxline
      → action ≢ new_action
      → s.fd ≡ []
      → process_round env jc g true (event_line action l ++ (10 ∷ [])) s t
        ≡ ok (
          record {
            dhcp_event_line =
                event_line action l
                ++ (0 ∷ drop (suc (length (event_line action l))) s.dhcp_event_line);
            dhcp_event = clear_dhcp_event_record (leased action l s.dhcp_event);
            counters = counted action s.counters;
            heart_beat_cycle = (heart_beat s.heart_beat_cycle).1;
            fd = [];
          },
          plain_effects env jc g action (leased action l s.dhcp_event) ++ t,
        )
  process_round-event_line s action l t p line text size more less plain empty =
      process_round-first_line s (event_line action l ++ (10 ∷ [])) action l [] t p line text size
        more less plain (ap (λ fd. fd ++ (event_line action l ++ (10 ∷ []))) empty)
