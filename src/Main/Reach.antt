-- ===== src/Main/Reach.antt =====
-- The states that `doProcessLoop` can reach, and what holds in all of them.
use osmud.Prelude.{
  ℕ, suc, ◌+◌, ◌<◌, ◌≤◌, Bool, true, false, List, [], ◌∷◌, ◌++◌, ◌≡◌, refl, ap, ◌∙◌, arith, Outcome,
  ok, fault, ◌>>=◌, bind-eq-ok, ok_injective, some, if◌then◌else◌, ◌==◌, ltb, length, length-set,
  set, Bool-cases, inl, inr, out_of_bounds,
}
use osmud.CString.{Bytes}
use osmud.Outside.{Env, Effect, exec_bind-eq-ok, lift_bind-eq-ok, ok-pair}
use osmud.DhcpEvent.{
  DhcpEvent, DhcpAction, new_action, old_action, del_action, none_action, clear_dhcp_event_record,
  process_dhcp_event_from_log,
}
use osmud.MudParser.Values.{JsonC}
use osmud.MudManager.Access.{Globals}
use osmud.MudManager.{Counters}
use osmud.MudManager.Handlers.{counted, execute_open_mud_dhcp_action-counted}
use osmud.Main.ReadLine.{write_at, read_loop, read_line}
use osmud.Main.Loop.{first_event, first_state}
use osmud.Main.{
  LoopState, maxline, c_string, heart_beat, poll_dhcp_file, process_event, process_line,
  process_round,
}

-- `n` rounds from a start lead to a state and the effects so far; what `select` finds in a round and
-- what is written to the file before it are any.
pub data Reaches (env : Env) (jc : JsonC) (g : Globals) (s0 : LoopState) (t0 : List Effect)
    : ℕ → LoopState → List Effect → Type 0 where
  start : Reaches env jc g s0 t0 0 s0 t0
  round :
      {n : ℕ} {s s' : LoopState} {t t' : List Effect} (ready : Bool) (arrived : Bytes)
      → Reaches env jc g s0 t0 n s t
      → process_round env jc g ready arrived s t ≡ ok (s', t')
      → Reaches env jc g s0 t0 (suc n) s' t'

-- all events of the statistics
abbrev pub total : Counters → ℕ
total c = c.new_events + c.old_events + c.delete_events + c.error_events

length-write_at :
    (buffer : List ℕ) (k c : ℕ) (b : List ℕ) → write_at buffer k c ≡ ok b → length b ≡ length buffer
length-write_at buffer k c b h = go (ltb k (length buffer)) h
  where
    go :
        (inside : Bool)
        → (if inside then ok (set buffer k c) else fault out_of_bounds) ≡ ok b
        → length b ≡ length buffer
    go true i = rw (← ok_injective i) (length-set buffer k c)
    go false i = cc

-- a write and a result that keeps the buffer
length-written :
    (buffer : List ℕ) (k c n : ℕ) (left : Bytes) {r : ℕ × List ℕ × Bytes}
    → (write_at buffer k c >>= λ b. ok (n, b, left)) ≡ ok r
    → length r.1 ≡ length buffer
length-written buffer k c n left h =
    let (b, written, e) = bind-eq-ok (write_at buffer k c) (λ b. ok (n, b, left)) h in
    rw (← ok_injective e) (length-write_at buffer k c b written)

length-read_loop :
    (max k : ℕ) (buffer : List ℕ) (fd : Bytes) {r : ℕ × List ℕ × Bytes}
    → read_loop max buffer k fd ≡ ok r
    → length r.1 ≡ length buffer
unfolding read_loop
length-read_loop max k buffer [] {r} h = go (ltb k max) h
  where
    go :
        (room : Bool)
        → (if room then (write_at buffer k 0 >>= λ b. ok (k + 1, b, [])) else ok (k, buffer, []))
          ≡ ok r
        → length r.1 ≡ length buffer
    go true i = length-written buffer k 0 (k + 1) [] i
    go false i = rw (← ok_injective i) refl
length-read_loop max k buffer (c ∷ cs) {r} h =
    go (c == 10) (ltb k max) (λ b e. length-read_loop max (k + 1) b cs e) h
  where
    go :
        (newline room : Bool)
        → ((b : List ℕ) → read_loop max b (k + 1) cs ≡ ok r → length r.1 ≡ length b)
        → (if newline
            then (write_at buffer k 0 >>= λ b. ok (k, b, cs))
            else if room
            then (write_at buffer k c >>= λ b. read_loop max b (k + 1) cs)
            else ok (k, buffer, cs))
          ≡ ok r
        → length r.1 ≡ length buffer
    go true room later i = length-written buffer k 0 k cs i
    go false true later i =
        let (b, written, rest) =
          bind-eq-ok (write_at buffer k c) (λ b. read_loop max b (k + 1) cs) i in
        later b rest ∙ length-write_at buffer k c b written
    go false false later i = rw (← ok_injective i) refl

length-poll_dhcp_file :
    (ready : Bool) (buffer : List ℕ) (fd : Bytes) {r : Bool × List ℕ × Bytes}
    → poll_dhcp_file ready buffer fd ≡ ok r
    → length r.1 ≡ length buffer
unfolding poll_dhcp_file read_line
length-poll_dhcp_file false buffer fd h = rw (← ok_injective h) refl
length-poll_dhcp_file true buffer fd {r} h =
    go (read_line buffer maxline fd) (λ q e. length-read_loop maxline 0 buffer fd e) h
  where
    go :
        (o : Outcome (ℕ × List ℕ × Bytes))
        → ((q : ℕ × List ℕ × Bytes) → o ≡ ok q → length q.1 ≡ length buffer)
        → (elim o [ ok (k, line, fd') ↦ ok (ltb 1 k, line, fd') | fault e ↦ fault e ]) ≡ ok r
        → length r.1 ≡ length buffer
    go (ok (k, line, fd')) keeps i = rw (← ok_injective i) (keeps (k, line, fd') refl)
    go (fault e) keeps i = cc

total-counted : (action : DhcpAction) (c : Counters) → total (counted action c) ≡ total c + 1
total-counted new_action c = omega arith
total-counted old_action c = omega arith
total-counted del_action c = omega arith
total-counted none_action c = omega arith

-- the record of the event at the start, but for the device
abbrev pub blank : DhcpEvent → DhcpEvent
blank event = record first_event { lan_device = event.lan_device }

module _ (env : Env) (jc : JsonC) (g : Globals) where
  total-process_event :
      (valid : ℕ) (c c' : Counters) (event e : DhcpEvent) (t t' : List Effect)
      → process_event env jc g valid c event t ≡ ok ((c', e), t')
      → (total c ≤ total c') × (total c' ≤ total c + 1)
  unfolding process_event
  total-process_event valid c c' event e t t' h = elim (Bool-cases (valid == 0)) [
    | inl none' ↦
        let same = ap total (ap (λ p. p.0) (ok-pair (rw none' at h)).0) in
        (omega (arith, same), omega (arith, same))
    | inr some' ↦
        let more = execute_open_mud_dhcp_action-counted env jc g c event t (rw some' at h) in
        let sum = ap total more ∙ total-counted event.action c in
        (omega (arith, sum), omega (arith, sum))
  ]

  total-process_line :
      (valid : Bool) (line : List ℕ) (c c' : Counters) (event e : DhcpEvent) (t t' : List Effect)
      → process_line env jc g valid line c event t ≡ ok ((c', e), t')
      → (total c ≤ total c') × (total c' ≤ total c + 1)
  unfolding process_line
  total-process_line false line c c' event e t t' h =
      let same = ap total (ap (λ p. p.0) (ok-pair h).0) in
      (omega (arith, same), omega (arith, same))
  total-process_line true line c c' event e t t' h =
      let (text, _, rest) = lift_bind-eq-ok (c_string line) _ t h in
      let ((n, event'), _, last) =
        lift_bind-eq-ok (process_dhcp_event_from_log (some text) event) _ t rest in
      total-process_event n c c' event' e t t' last

  -- what a round keeps
  round-keeps :
      (ready : Bool) (arrived : Bytes) (s s' : LoopState) (t t' : List Effect)
      → process_round env jc g ready arrived s t ≡ ok (s', t')
      → (length s'.dhcp_event_line ≡ length s.dhcp_event_line)
        × (s'.heart_beat_cycle ≡ (heart_beat s.heart_beat_cycle).1)
        × (total s.counters ≤ total s'.counters)
        × (total s'.counters ≤ total s.counters + 1)
        × (s'.dhcp_event ≡ blank s'.dhcp_event)
  unfolding process_round clear_dhcp_event_record
  round-keeps ready arrived s s' t t' h =
      let ((valid, line, fd), polled, rest) =
        lift_bind-eq-ok (poll_dhcp_file ready s.dhcp_event_line (s.fd ++ arrived)) _ t h in
      let (((c, e), u), ran, last) =
        exec_bind-eq-ok (process_line env jc g valid line s.counters s.dhcp_event) _ t rest in
      let (more, most) = total-process_line valid line s.counters c s.dhcp_event e t u ran in
      rw ((ok-pair last).0) (
        length-poll_dhcp_file ready s.dhcp_event_line (s.fd ++ arrived) polled,
        refl,
        more,
        most,
        refl,
      )

-- What holds after `n` rounds from a start.
pub record IsSound (s0 : LoopState) (n : ℕ) (s : LoopState) : Type 0 where
  pub buffer : length s.dhcp_event_line ≡ length s0.dhcp_event_line
  pub cycle : s.heart_beat_cycle < 722
  pub counted_once : total s.counters ≤ total s0.counters + n
  pub nothing_lost : total s0.counters ≤ total s.counters
  pub cleared : s.dhcp_event ≡ blank s.dhcp_event

beat_small : (cycle : ℕ) → cycle < 722 → (heart_beat cycle).1 < 722
unfolding heart_beat
beat_small cycle h = ground arith

-- In every state that `doProcessLoop` reaches from its start, after any rounds with any lines: the
-- buffer of the line keeps its size, the heartbeat cycle is below 722, at most one event is counted
-- for each round and no count is lost, and nothing of the last event but its
-- device is left in the record.
pub reached-IsSound :
    (env : Env) (jc : JsonC) (g : Globals) (counters : Counters) (buffer : List ℕ) (fd : Bytes)
    (t0 : List Effect) (n : ℕ) (s : LoopState) (t : List Effect)
    → Reaches env jc g (first_state counters buffer fd) t0 n s t
    → IsSound (first_state counters buffer fd) n s
unfolding clear_dhcp_event_record
reached-IsSound env jc g counters buffer fd t0 n s t start = record {
  buffer = refl;
  cycle = omega arith;
  counted_once = omega arith;
  nothing_lost = omega arith;
  cleared = refl;
}
reached-IsSound env jc g counters buffer fd t0 n s t
      (round {n = m} {s = s1} {t = t1} ready arrived before ran) =
    let i = reached-IsSound env jc g counters buffer fd t0 m s1 t1 before in
    let (line, beat, more, most, clear) = round-keeps env jc g ready arrived s1 s t1 t ran in
    record {
      buffer = line ∙ i.buffer;
      cycle = rw beat (beat_small s1.heart_beat_cycle i.cycle);
      counted_once = omega (arith, most, i.counted_once);
      nothing_lost = omega (arith, more, i.nothing_lost);
      cleared = clear;
    }
