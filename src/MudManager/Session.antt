-- ===== src/MudManager/Session.antt =====
-- What a run of the access rules may add to the effects, and how its result comes about.
use mathlib.Core.List.{append_assoc}
use osmud.Prelude.{
  ℕ, Bool, true, false, not, ◌&&◌, ◌||◌, List, [], ◌∷◌, ◌++◌, ◌≡◌, refl, sym, ap, ◌∙◌, ok, Option,
  arith, All, All-append, if◌then◌else◌, ◌==◌,
}
use osmud.CString.{Bytes}
use osmud.Outside.{Env, Effect, system, append_line, resolve}
use osmud.DhcpEvent.{DhcpEvent}
use osmud.MudParser.Info.{AceEntry}
use osmud.OpenWrt.{command, firewall_command, get_action_string}
use osmud.MudManager.Access.{from_rule, to_rule}

-- What carrying out an access list may do: look up a host, add a line to the white list, and
-- install a rule between the device of the event and an address, for an ace whose action is known.
pub data RuleEffect (event : DhcpEvent) : Effect → Type 0 where
  looked_up : (host : Option Bytes) → RuleEffect event (resolve host)
  noted : (file line : Bytes) → RuleEffect event (append_line file line)
  let_out :
      (ace : AceEntry) (acl_type : Option Bytes) (ip action : Bytes)
      → get_action_string ace.actions_forwarding ≡ ok action
      → RuleEffect event (command (firewall_command (from_rule ace acl_type event ip) action))
  let_in :
      (ace : AceEntry) (acl_type : Option Bytes) (ip action : Bytes)
      → get_action_string ace.actions_forwarding ≡ ok action
      → RuleEffect event (command (firewall_command (to_rule ace acl_type event ip) action))

abbrev pub is_system : Effect → Bool
is_system (system _) = true
is_system _ = false

-- how the flags of two parts join
both :
    (a b c : ℕ) (f f' x y : Bool)
    → b ≡ (if f && x then a else 1)
    → c ≡ (if f' && y then b else 1)
    → c ≡ (if (f && f') && (y && x) then a else 1)
both a b c f f' x y p q = ground arith

module _ (env : Env) where
  -- Did each command among the effects `es`, on top of `t`, return 0?
  unfoldable pub clean : List Effect → List Effect → Bool
  clean [] t = true
  clean (e ∷ es) t = (not (is_system e) || env.status (es ++ t) e == 0) && clean es t

  pub clean-append :
      (xs ys t : List Effect) → clean (xs ++ ys) t ≡ (clean xs (ys ++ t) && clean ys t)
  unfolding clean
  clean-append [] ys t = refl
  clean-append (x ∷ xs) ys t = rw (append_assoc, clean-append xs ys t) (ground arith)

  -- A part of the run that began at `t` with the flag `before` and ended at `t'` with `after`:
  -- `found` tells whether all of its acls were there.
  pub record Ran (event : DhcpEvent) (t t' : List Effect) (before after : ℕ) (found : Bool)
      : Type 0 where
    pub added : List Effect
    pub trace : t' ≡ added ++ t
    pub rules : All (RuleEffect event) added
    pub result : after ≡ (if found && clean added t then before else 1)

  module _ {event : DhcpEvent} where
    pub Ran-refl : (t : List Effect) (n : ℕ) → Ran event t t n n true
    unfolding clean
    Ran-refl t n = record { added = []; trace = refl; rules = tt; result = refl }

    pub Ran-trans :
        {t u v : List Effect} {a b c : ℕ} {f f' : Bool}
        → Ran event t u a b f
        → Ran event u v b c f'
        → Ran event t v a c (f && f')
    Ran-trans {t} {u} {v} {a} {b} {c} {f} {f'} r s = record {
      added = s.added ++ r.added;
      trace = s.trace ∙ ap (λ w. s.added ++ w) r.trace ∙ sym (append_assoc s.added r.added t);
      rules = All-append (RuleEffect event) s.added r.added s.rules r.rules;
      result = rw (clean-append s.added r.added t) (
          both a b c f f' (clean r.added t) (clean s.added (r.added ++ t)) r.result
            (rw (← r.trace) s.result));
    }

    -- one effect that does not touch the flag
    pub Ran-silent :
        (e : Effect) (t : List Effect) (n : ℕ)
        → RuleEffect event e
        → is_system e ≡ false
        → Ran event t (e ∷ t) n n true
    unfolding clean
    Ran-silent e t n h q = record {
      added = e ∷ [];
      trace = refl;
      rules = (h, tt);
      result = ground arith;
    }

    -- one command, whose failure sets the flag
    pub Ran-command :
        (text : Bytes) (t : List Effect) (n : ℕ)
        → RuleEffect event (system text)
        → Ran event t (system text ∷ t) n (if env.status t (system text) == 0 then n else 1) true
    unfolding clean
    Ran-command text t n h = record {
      added = system text ∷ [];
      trace = refl;
      rules = (h, tt);
      result = ground arith;
    }

    -- an acl that is missing sets the flag
    pub Ran-missing : (t : List Effect) (n : ℕ) → Ran event t t n 1 false
    Ran-missing t n = record { added = []; trace = refl; rules = tt; result = refl }

    pub Ran-subst :
        {t t' u : List Effect} {a n m : ℕ} {f : Bool}
        → (n ≡ m) × (t' ≡ u)
        → Ran event t u a m f
        → Ran event t t' a n f
    Ran-subst p r = rw (p.0, p.1) r
