-- ===== src/Main/Backlog.antt =====
-- Lines that wait in the file of events, over the rounds of `doProcessLoop`.
use mathlib.Core.List.{append-nil}
use osmud.Prelude.{
  ℕ, zero, suc, ◌+◌, ◌<◌, ◌≤◌, true, List, [], ◌∷◌, ◌++◌, ◌≡◌, ◌≢◌, refl, ap, ◌∙◌, arith, ok,
  length, length-append, drop, replicate, All,
}
use osmud.CString.{Bytes}
use osmud.Outside.{Env, Effect, exec_bind-ok}
use osmud.DhcpEvent.{DhcpAction, DhcpEvent, new_action, old_action, del_action, none_action}
use osmud.DhcpEvent.RoundTrip.{Lease, IsPrintable, event_line, leased}
use osmud.MudParser.Values.{JsonC}
use osmud.MudManager.Access.{Globals}
use osmud.MudManager.{Counters}
use osmud.MudManager.Handlers.{counted, plain_effects}
use osmud.Main.Lines.{IsLine}
use osmud.Main.Rounds.{IsText, after_line, process_round-first_line}
use osmud.Main.Loop.{first_event, do_process_loop}
use osmud.Main.{LoopState, maxline, process_round}

-- an event of the script
abbrev pub Entry : Type 0
Entry = DhcpAction × Lease

-- The event is not NEW, and its line can be read back.
pub record IsPlain (e : Entry) : Type 0 where
  pub printable : IsPrintable e.1
  pub line : IsLine (event_line e.0 e.1)
  pub text : IsText (event_line e.0 e.1)
  pub more : 1 < length (event_line e.0 e.1)
  pub less : length (event_line e.0 e.1) < maxline
  pub plain : e.0 ≢ new_action

-- the file with the lines of the events
unfoldable pub lines_of : List Entry → Bytes
lines_of [] = []
lines_of ((action, l) ∷ more) = event_line action l ++ (10 ∷ lines_of more)

unfoldable pub count_all : List Entry → Counters → Counters
count_all [] c = c
count_all ((action, l) ∷ more) c = count_all more (counted action c)

length-drop :
    {A : Type 0} (n : ℕ) (xs : List A) → n ≤ length xs → n + length (drop n xs) ≡ length xs
length-drop zero xs h = omega arith
length-drop (suc n) [] h = absurd (omega (arith, h))
length-drop (suc n) (x ∷ xs) h = omega (arith, length-drop n xs (omega (arith, h)))

-- The buffer keeps its size.
stored-size :
    (line : Bytes) (buffer : List ℕ)
    → length line < maxline
    → length buffer ≡ maxline
    → length (line ++ (0 ∷ drop (suc (length line)) buffer)) ≡ maxline
stored-size line buffer less size = omega (
  arith,
  length-append line (0 ∷ drop (suc (length line)) buffer),
  length-drop (suc (length line)) buffer (omega (arith, size, less)),
)

module _ (env : Env) (jc : JsonC) (g : Globals) where
  -- the effects of the events on top of `t`, the newest first
  unfoldable pub all_effects : List Entry → List Effect → List Effect
  all_effects [] t = t
  all_effects ((action, l) ∷ more) t =
      all_effects more (plain_effects env jc g action (leased action l first_event) ++ t)

  plain_effects-leased :
      (action : DhcpAction) (l : Lease) (e e' : DhcpEvent)
      → plain_effects env jc g action (leased action l e)
        ≡ plain_effects env jc g action (leased action l e')
  plain_effects-leased new_action l e e' = refl
  plain_effects-leased old_action l e e' = refl
  plain_effects-leased del_action l e e' = refl
  plain_effects-leased none_action l e e' = refl

  -- the round of the first line
  round_of :
      (action : DhcpAction) (l : Lease) (rest : Bytes) (s : LoopState) (t : List Effect)
      → IsPlain (action, l)
      → length s.dhcp_event_line ≡ maxline
      → s.fd ≡ event_line action l ++ (10 ∷ rest)
      → (s' : LoopState) × (process_round env jc g true [] s t
          ≡ ok (s', plain_effects env jc g action (leased action l first_event) ++ t))
        × (length s'.dhcp_event_line ≡ maxline)
        × (s'.fd ≡ rest)
        × (s'.counters ≡ counted action s.counters)
  round_of action l rest s t p size held = (
    after_line env jc g action l rest s,
    process_round-first_line env jc g s [] action l rest t p.printable p.line p.text size p.more
          p.less p.plain (append-nil s.fd ∙ held)
        ∙ ap (λ effects. ok (after_line env jc g action l rest s, effects ++ t))
            (plain_effects-leased action l s.dhcp_event first_event),
    stored-size (event_line action l) s.dhcp_event_line p.less size,
    refl,
    refl,
  )

  -- Lines of the script wait in the file, each for an event other than NEW, with fields that are not
  -- empty and hold no delimiter, and shorter than the buffer. In as many rounds as there are lines,
  -- where nothing else is written, all of them are read and none is left: every event is counted,
  -- and the commands of the events are run in the order of the lines.
  pub do_process_loop-lines_of :
      (entries : List Entry) (s : LoopState) (t : List Effect)
      → All IsPlain entries
      → length s.dhcp_event_line ≡ maxline
      → s.fd ≡ lines_of entries
      → (s' : LoopState) × (do_process_loop env jc g (replicate (length entries) (true, [])) s t
          ≡ ok (s', all_effects entries t))
        × (s'.fd ≡ [])
        × (s'.counters ≡ count_all entries s.counters)
  unfolding do_process_loop all_effects lines_of count_all
  do_process_loop-lines_of [] s t p size held = (s, refl, held, refl)
  do_process_loop-lines_of ((action, l) ∷ more) s t p size held =
      let (s1, ran, size1, held1, counters1) =
        round_of action l (lines_of more) s t p.0 size held in
      let (s2, rest, empty, counters2) =
        do_process_loop-lines_of more s1
          (plain_effects env jc g action (leased action l first_event) ++ t) p.1 size1 held1 in
      (
        s2,
        exec_bind-ok (process_round env jc g true [] s)
              (do_process_loop env jc g (replicate (length more) (true, []))) t ran
            ∙ rest,
        empty,
        counters2 ∙ ap (count_all more) counters1,
      )
