-- ===== src/Main/Whole.antt =====
-- src/osmud.c: `main` with its call of `doProcessLoop`.
use osmud.Prelude.{ℕ, Bool, true, List, [], ◌≡◌, refl, ap, ◌∙◌, ok, length, replicate, All}
use osmud.Prelude.Int.{ℤ}
use osmud.CString.{Bytes}
use osmud.Outside.{Env, Exec, Effect, pure, ◌>>=◌, exec_bind-ok}
use osmud.MudParser.Values.{JsonC}
use osmud.MudManager.{reset_dhcp_counters}
use osmud.Main.Settings.{Opt}
use osmud.Main.Start.{Fork, Running, Ending, stops, runs, main}
use osmud.Main.Started.{running}
use osmud.Main.Safe.{main-Entered}
use osmud.Main.Loop.{first_state, do_process_loop}
use osmud.Main.Backlog.{Entry, IsPlain, lines_of, count_all, all_effects, do_process_loop-lines_of}
use osmud.Main.{LoopState, maxline}

-- The program stopped before the loop, or it is in the loop.
pub data Progress : Type 0 where
  stopped : ℤ → Progress
  looping : LoopState → Progress

-- the call of `doProcessLoop`, for a number of rounds
unfoldable pub enter_loop :
    Env → JsonC → List ℕ → Bytes → List (Bool × Bytes) → Ending → Exec Progress
enter_loop env jc buffer fd rounds (stops status) = pure (stopped status)
enter_loop env jc buffer fd rounds (runs r) =
    do_process_loop env jc r.globals rounds (first_state r.counters buffer fd) >>= λ s.
    pure (looping s)

-- The program: what `fork` and `getopt` return, what the buffer of the line happens to hold, what
-- the file of events has when it is opened, and the rounds.
unfoldable pub osmud_main :
    Env → JsonC → Fork → List Opt → List ℕ → Bytes → List (Bool × Bytes) → Exec Progress
unfolding enter_loop
osmud_main env jc fork opts buffer fd rounds =
    main env fork opts >>= enter_loop env jc buffer fd rounds

-- The program enters its loop after its options while lines of the script wait in the file of
-- events, each for an event other than NEW, with fields that are not empty and hold no delimiter, and
-- shorter than the buffer. In as many rounds as there are lines, where nothing else is written, all
-- lines are read, the events are counted from 0, and their commands are run in the order of the lines
-- with the data directory of the options, or the default.
pub osmud_main-lines_of :
    (env : Env) (jc : JsonC) (fork : Fork) (opts : List Opt) (buffer : List ℕ)
    (entries : List Entry) (r : Running) (t t1 : List Effect)
    → main env fork opts t ≡ ok (runs r, t1)
    → length buffer ≡ maxline
    → All IsPlain entries
    → (s : LoopState) × (osmud_main env jc fork opts buffer
          (lines_of entries)
          (replicate (length entries) (true, []))
          t
        ≡ ok (looping s, all_effects env jc (running opts).globals entries t1))
      × (s.fd ≡ [])
      × (s.counters ≡ count_all entries reset_dhcp_counters)
unfolding osmud_main enter_loop
osmud_main-lines_of env jc fork opts buffer entries r t t1 started size plain =
    let (_, (same, _, _)) = main-Entered env opts fork r t t1 started in
    let rounds = replicate (length entries) (true, []) in
    let first = first_state reset_dhcp_counters buffer (lines_of entries) in
    let g = (running opts).globals in
    let (s, ran, empty, counted) =
      do_process_loop-lines_of env jc g entries first t1 plain size refl in
    (
      s,
      exec_bind-ok (main env fork opts) (enter_loop env jc buffer (lines_of entries) rounds) t
            started
          ∙ ap (λ x. enter_loop env jc buffer (lines_of entries) rounds (runs x) t1) same
          ∙ exec_bind-ok (do_process_loop env jc g rounds first) (λ u. pure (looping u)) t1 ran,
      empty,
      counted,
    )
