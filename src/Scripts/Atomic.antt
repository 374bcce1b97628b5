-- ===== src/Scripts/Atomic.antt =====
-- `executeMudWithDhcpContext` changes what is saved of the firewall as a whole or not at all.
use mathlib.Core.Path.{subst}
use osmud.Prelude.{
  ℕ, Bool, true, false, not, List, [], ◌∷◌, ◌++◌, ◌≡◌, refl, sym, ap, ◌∙◌, All, ok, if◌then◌else◌,
  ◌==◌, Bool-cases, inl, inr,
}
use osmud.CString.{codes}
use osmud.Outside.{Env, Effect, system}
use osmud.DhcpEvent.{DhcpEvent}
use osmud.MudParser.Info.{MudFileInfo}
use osmud.MudManager.{apply_mud_file, reject_all_rule}
use osmud.MudManager.Access.{Globals, from_rule, to_rule}
use osmud.MudManager.Session.{RuleEffect, looked_up, noted, let_out, let_in}
use osmud.MudManager.Commit.{removal, rejection, finish, apply_mud_file-Applied}
use osmud.Scripts.Shell.{any_byte, is_special}
use osmud.Scripts.Machine.{World, Tools, replay, run_effect}
use osmud.Scripts.Grown.{rules_at, saved_at, commit-rules, rollback-rules}
use osmud.Scripts.Quiet.{firewall_command-saved, remove_rule_command-saved}

-- Is the effect no command with a byte that is special for the shell?
abbrev pub is_literal : Effect → Bool
is_literal (system text) = not (any_byte is_special text)
is_literal _ = true

no_special : (b : Bool) → not b ≡ true → b ≡ false
no_special true h = cc
no_special false h = refl

All-right :
    (xs ys : List Effect)
    → All (λ e. is_literal e ≡ true) (xs ++ ys)
    → All (λ e. is_literal e ≡ true) ys
All-right [] ys h = h
All-right (x ∷ xs) ys (h, hs) = All-right xs ys hs

module _ {S : Type 0} (tools : Tools S) (w : World S) (env : Env) (event : DhcpEvent) where
  RuleEffect-saved :
      (e : Effect) (v : World S)
      → RuleEffect event e
      → is_literal e ≡ true
      → tools.uci.saved (run_effect tools e v).1.config ≡ tools.uci.saved v.config
  RuleEffect-saved e v (looked_up host) h = ap tools.uci.saved (tools.other-config _ v refl)
  RuleEffect-saved e v (noted file line) h = ap tools.uci.saved (tools.other-config _ v refl)
  RuleEffect-saved e v (let_out ace acl_type ip action at) h =
      firewall_command-saved tools (from_rule ace acl_type event ip) action v (no_special _ h)
  RuleEffect-saved e v (let_in ace acl_type ip action at) h =
      firewall_command-saved tools (to_rule ace acl_type event ip) action v (no_special _ h)

  session-saved :
      (session u : List Effect)
      → All (RuleEffect event) session
      → All (λ e. is_literal e ≡ true) (session ++ u)
      → saved_at tools w env (session ++ u) ≡ saved_at tools w env u
  unfolding replay
  session-saved [] u rules literal = refl
  session-saved (e ∷ session) u (rule, rules) (h, literal) =
      RuleEffect-saved e (replay tools w (session ++ u)) rule h
      ∙ session-saved session u rules literal

  finish-rules :
      (g : Globals) (mud_file : MudFileInfo) (retval : ℕ) (u : List Effect)
      → (saved_at tools w env (finish env g event mud_file retval ∷ u)
          ≡ (if retval == 0 then rules_at tools w env u else saved_at tools w env u))
        × (rules_at tools w env (finish env g event mud_file retval ∷ u)
            ≡ saved_at tools w env (finish env g event mud_file retval ∷ u))
  finish-rules g mud_file retval u = elim (Bool-cases (retval == 0)) [
    | inl e ↦
        let (kept, committed) = commit-rules tools w env u in rw e (committed, kept ∙ sym committed)
    | inr e ↦
        let (kept, reverted) = rollback-rules tools w env u in rw e (reverted, kept ∙ sym reverted)
  ]

  -- A run for any MUD file that returns, where no command up to its end has a byte that is special
  -- for the shell: where the result is 0, what is saved of the rules is all that its commands made
  -- of them; otherwise what is saved is what was saved before the run, however the scripts end.
  -- Either way no change is left that is not saved.
  pub apply_mud_file-saved :
      (g : Globals) (mud_file : MudFileInfo) (retval : ℕ) (t t' : List Effect)
      → apply_mud_file env g mud_file event t ≡ ok (retval, t')
      → All (λ e. is_literal e ≡ true) t'
      → (u : List Effect) × (t' ≡ finish env g event mud_file retval ∷ u)
        × (saved_at tools w env t'
            ≡ (if retval == 0 then rules_at tools w env u else saved_at tools w env t))
        × (rules_at tools w env t' ≡ saved_at tools w env t')
  unfolding replay
  apply_mud_file-saved g mud_file retval t t' ran literal =
      let a = apply_mud_file-Applied env g event mud_file t ran in
      let base = removal env g event mud_file ∷ t in
      let u = rejection env g event mud_file ∷ (a.session ++ base) in
      let shown : t' ≡ finish env g event mud_file retval ∷ u = a.trace in
      let (last, (reject, rest)) = subst (All (λ e. is_literal e ≡ true)) shown literal in
      let (old, before) = All-right a.session base rest in
      let kept : saved_at tools w env u ≡ saved_at tools w env t =
        firewall_command-saved tools (reject_all_rule event) (codes "DENY") _ (no_special _ reject)
        ∙ session-saved a.session base a.rules rest
        ∙ remove_rule_command-saved tools event.ip_address event.mac_address _ (no_special _ old) in
      let (saved, rules) = finish-rules g mud_file retval u in
      (
        u,
        shown,
        ap (saved_at tools w env) shown
            ∙ saved
            ∙ ap (λ s. if retval == 0 then rules_at tools w env u else s) kept,
        ap (rules_at tools w env) shown ∙ rules ∙ sym (ap (saved_at tools w env) shown),
      )
