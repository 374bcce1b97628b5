-- ===== src/Scripts/Grown.antt =====
-- A part of a run whose commands all install rules, and the sections they add.
use mathlib.Core.List.{append_assoc, append-nil}
use osmud.Prelude.{ℕ, ◌<◌, true, false, List, [], ◌∷◌, ◌++◌, ◌≡◌, refl, sym, ap, ◌∙◌, ◌==◌, length}
use osmud.CString.{Bytes}
use osmud.Outside.{system, Env, Effect}
use osmud.OpenWrt.{
  FirewallRule, firewall_command, buf_size, command, uci_firewall_commit_script,
  uci_firewall_rollback_script,
}
use osmud.MudManager.Session.{is_system, clean, clean-append}
use osmud.Scripts.Uci.{Section}
use osmud.Scripts.RoundTrip.{lacks_variable-variables_of, IsPlainRule, variables_of}
use osmud.Scripts.Install.{section_of, rules-add_firewall_rule, saved-add_firewall_rule}
use osmud.Scripts.Installed.{run_effect-commit, run_effect-rollback, run_effect-firewall_command}
use osmud.Scripts.Machine.{World, Tools, run_effect, replay, RunsScripts}

-- The command of the rule fits its buffer, and its texts are words that stand for themselves.
pub record IsInstallable (r : FirewallRule) (action : Bytes) : Type 0 where
  pub plain : IsPlainRule r action
  pub fits : length (firewall_command r action) < buf_size

-- the section that a rule becomes
abbrev pub section_for : FirewallRule → Bytes → Section
section_for r action = section_of (variables_of r action)

module _ {S : Type 0} (tools : Tools S) (w : World S) (env : Env) where
  abbrev pub rules_at : List Effect → List Section
  rules_at t = tools.uci.rules (replay tools w t).config

  abbrev pub saved_at : List Effect → List Section
  saved_at t = tools.uci.saved (replay tools w t).config

  -- From the effects `u` to `v`: commands that return 0 and add the sections `xs`, with nothing saved.
  pub record Grown (u v : List Effect) (xs : List Section) : Type 0 where
    pub added : List Effect
    pub trace : v ≡ added ++ u
    pub returns : clean env added u ≡ true
    pub grows : rules_at v ≡ rules_at u ++ xs
    pub keeps : saved_at v ≡ saved_at u

  pub Grown-refl : (u : List Effect) → Grown u u []
  unfolding clean
  Grown-refl u = record {
    added = [];
    trace = refl;
    returns = refl;
    grows = sym (append-nil (rules_at u));
    keeps = refl;
  }

  pub Grown-trans :
      {t u v : List Effect} {xs ys : List Section}
      → Grown t u xs
      → Grown u v ys
      → Grown t v (xs ++ ys)
  Grown-trans {t} {u} {v} {xs} {ys} a b = record {
    added = b.added ++ a.added;
    trace = b.trace ∙ ap (λ l. b.added ++ l) a.trace ∙ sym (append_assoc b.added a.added t);
    returns =
        clean-append env b.added a.added t
        ∙ rw (a.returns, ap (λ l. clean env b.added l) (sym a.trace), b.returns) refl;
    grows = b.grows ∙ ap (λ l. l ++ ys) a.grows ∙ append_assoc (rules_at t) xs ys;
    keeps = b.keeps ∙ a.keeps;
  }

  -- an effect that is no command
  pub Grown-other :
      (e : Effect) (u : List Effect)
      → is_system e ≡ false
      → (run_effect tools e (replay tools w u)).1.config ≡ (replay tools w u).config
      → Grown u (e ∷ u) []
  unfolding clean replay
  Grown-other e u h same = record {
    added = e ∷ [];
    trace = refl;
    returns = rw h refl;
    grows = ap tools.uci.rules same ∙ sym (append-nil (rules_at u));
    keeps = ap tools.uci.saved same;
  }

  -- the command of a rule
  pub Grown-command :
      (r : FirewallRule) (action : Bytes) (u : List Effect)
      → RunsScripts tools w env
      → IsInstallable r action
      → Grown u (command (firewall_command r action) ∷ u) (section_for r action ∷ [])
  unfolding clean replay
  Grown-command r action u runs h =
      let ran = run_effect-firewall_command tools r action (replay tools w u) h.plain h.fits in
      let status = runs u _ ∙ ap (λ (p : ℕ × World S). p.0 == 0) ran in
      record {
        added = command (firewall_command r action) ∷ [];
        trace = refl;
        returns = rw status refl;
        grows =
            ap (λ (p : ℕ × World S). tools.uci.rules p.1.config) ran
            ∙ rules-add_firewall_rule tools.uci (variables_of r action) (replay tools w u).config
                (lacks_variable-variables_of r action h.plain);
        keeps =
            ap (λ (p : ℕ × World S). tools.uci.saved p.1.config) ran
            ∙ saved-add_firewall_rule tools.uci (variables_of r action) (replay tools w u).config;
      }

  -- What a commit and a roll back leave.
  pub commit-rules :
      (u : List Effect)
      → (rules_at (system uci_firewall_commit_script ∷ u) ≡ rules_at u)
        × (saved_at (system uci_firewall_commit_script ∷ u) ≡ rules_at u)
  unfolding replay
  commit-rules u =
      let ran = ap (λ p. p.1.config) (run_effect-commit tools (replay tools w u)) in
      (
        ap tools.uci.rules ran ∙ tools.uci.rules-commit (replay tools w u).config,
        ap tools.uci.saved ran ∙ tools.uci.saved-commit (replay tools w u).config,
      )

  pub rollback-rules :
      (u : List Effect)
      → (rules_at (system uci_firewall_rollback_script ∷ u) ≡ saved_at u)
        × (saved_at (system uci_firewall_rollback_script ∷ u) ≡ saved_at u)
  unfolding replay
  rollback-rules u =
      let ran = ap (λ p. p.1.config) (run_effect-rollback tools (replay tools w u)) in
      (
        ap tools.uci.rules ran ∙ tools.uci.rules-revert (replay tools w u).config,
        ap tools.uci.saved ran ∙ tools.uci.saved-revert (replay tools w u).config,
      )
