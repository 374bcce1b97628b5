-- ===== src/Scripts/Transaction.antt =====
-- The rules that are in force after a MUD file was carried out.
use mathlib.Core.List.{append_cancel_right}
use osmud.Prelude.{ℕ, true, Option, List, [], ◌∷◌, ◌++◌, ◌≡◌, refl, sym, ap, ◌∙◌, All}
use osmud.CString.{Bytes, codes}
use osmud.Outside.{Env, Effect, system}
use osmud.DhcpEvent.{DhcpEvent}
use osmud.MudParser.Document.{Document, info_of}
use osmud.OpenWrt.{uci_firewall_commit_script}
use osmud.MudManager.{reject_all_rule}
use osmud.MudManager.Access.{Globals}
use osmud.MudManager.Session.{clean}
use osmud.MudManager.Commit.{removal, rejection}
use osmud.MudManager.Committed.{names_acls}
use osmud.MudManager.Plan.{plan}
use osmud.MudManager.Pipeline.{Carried, transaction}
use osmud.Scripts.Uci.{Section}
use osmud.Scripts.Machine.{World, Tools, RunsScripts}
use osmud.Scripts.Grown.{
  commit-rules, IsInstallable, section_for, Grown, Grown-trans, Grown-command, rules_at, saved_at,
}
use osmud.Scripts.Planned.{AclFits, document_sections, plan-Grown}

module _ (ips : Option Bytes → List Bytes) (g : Globals) (event : DhcpEvent) (d : Document)
    {S : Type 0} (tools : Tools S) (w : World S) (env : Env) where
  -- the section that rejects what no other section is about
  abbrev pub reject_section : Section
  reject_section = section_for (reject_all_rule event) (codes "DENY")

  -- The rules that a run installs on top of `u`.
  carried-Grown :
      (u : List Effect)
      → RunsScripts tools w env
      → All (AclFits ips event) d.acls
      → IsInstallable (reject_all_rule event) (codes "DENY")
      → Grown tools w env u
          (rejection env g event (info_of d) ∷ plan ips g event d u)
          (document_sections ips event d ++ (reject_section ∷ []))
  carried-Grown u runs fits reject =
      Grown-trans tools w env (plan-Grown ips event g tools w env runs d u fits)
        (Grown-command tools w env (reject_all_rule event) (codes "DENY") _ runs reject)

  -- the commands between the removal of the old rules and the end
  abbrev pub before_finish : List Effect → List Effect
  before_finish t =
      rejection env g event (info_of d) ∷ plan ips g event d (removal env g event (info_of d) ∷ t)

  result-committed :
      (retval : ℕ) (t t' : List Effect)
      → names_acls env ips g d ≡ true
      → Carried env ips g event d retval t t'
      → Grown tools w env
          (removal env g event (info_of d) ∷ t)
          (before_finish t)
          (document_sections ips event d ++ (reject_section ∷ []))
      → retval ≡ 0
  result-committed retval t t' names c grown =
      let base = removal env g event (info_of d) ∷ t in
      let same =
        append_cancel_right grown.added (rejection env g event (info_of d) ∷ c.session) base
          (sym grown.trace ∙ ap (◌∷◌ (rejection env g event (info_of d))) c.planned) in
      let cleaned = ap (λ l. clean env l base) (sym same) ∙ grown.returns in
      c.result ∙ rw (names, cleaned) refl

  -- The rules after a run for a document, whose commands all can be installed and which has an acl
  -- for each name in its policies, where the environment gives the statuses of the scripts: the
  -- result is 0, and what is saved is the rules that the removal left, the sections of the document,
  -- and the section that rejects the rest; no change is left that is not saved.
  pub Carried-saved :
      (retval : ℕ) (t t' : List Effect)
      → RunsScripts tools w env
      → All (AclFits ips event) d.acls
      → IsInstallable (reject_all_rule event) (codes "DENY")
      → names_acls env ips g d ≡ true
      → Carried env ips g event d retval t t'
      → (retval ≡ 0)
        × (saved_at tools w env t'
            ≡ rules_at tools w env (removal env g event (info_of d) ∷ t)
              ++ (document_sections ips event d ++ (reject_section ∷ [])))
        × (rules_at tools w env t' ≡ saved_at tools w env t')
  Carried-saved retval t t' runs fits reject names c =
      let base = removal env g event (info_of d) ∷ t in
      let grown = carried-Grown base runs fits reject in
      let zero_result = result-committed retval t t' names c grown in
      let shown : t' ≡ system uci_firewall_commit_script ∷ before_finish t =
        c.trace ∙ ap (λ n. transaction env ips g event d n t) zero_result in
      let (kept, committed) = commit-rules tools w env (before_finish t) in
      (
        zero_result,
        ap (saved_at tools w env) shown ∙ committed ∙ grown.grows,
        ap (rules_at tools w env) shown
            ∙ kept
            ∙ sym committed
            ∙ sym (ap (saved_at tools w env) shown),
      )
