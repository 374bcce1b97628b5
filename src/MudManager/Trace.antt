-- ===== src/MudManager/Trace.antt =====
-- Effects are never taken back: a run only adds to them.
use mathlib.Core.List.{append_assoc}
use osmud.Prelude.{
  ℕ, Option, none, some, List, [], ◌∷◌, ◌++◌, ◌≡◌, refl, sym, ap, ◌∙◌, ok, bind-eq-ok,
}
use osmud.CString.{Bytes}
use osmud.Outside.{Env, Effect, read_file, exec_bind-eq-ok, ok-pair}
use osmud.DhcpEvent.{DhcpEvent}
use osmud.MudParser.Values.{JsonC}
use osmud.MudParser.Info.{MudFileInfo}
use osmud.MudParser.{parse_mud_file, parse_text}
use osmud.OpenWrt.{install_mud_db_device_entry}
use osmud.MudManager.Access.{Globals}
use osmud.MudManager.Commit.{apply_mud_file-Applied, finish, rejection, removal}
use osmud.MudManager.{execute_mud_with_dhcp_context, apply_parsed}

pub record Grew (t t' : List Effect) : Type 0 where
  pub added : List Effect
  pub trace : t' ≡ added ++ t

pub Grew-one : (e : Effect) (t : List Effect) → Grew t (e ∷ t)
Grew-one e t = record { added = e ∷ []; trace = refl }

pub Grew-trans : {t u v : List Effect} → Grew t u → Grew u v → Grew t v
Grew-trans {t} a b = record {
  added = b.added ++ a.added;
  trace = b.trace ∙ ap (λ w. b.added ++ w) a.trace ∙ sym (append_assoc b.added a.added t);
}

module _ (env : Env) (jc : JsonC) (g : Globals) (event : DhcpEvent) where
  -- A parse that returns has read the file, and its result is never NULL.
  pub parse_mud_file-eq-ok :
      (file : Option Bytes) (t : List Effect) {m : Option MudFileInfo} {t' : List Effect}
      → parse_mud_file env jc file t ≡ ok (m, t')
      → (f : Bytes) × (mfi : MudFileInfo) × (m ≡ some mfi) × (t' ≡ read_file f ∷ t)
  unfolding parse_mud_file
  parse_mud_file-eq-ok none t h = cc
  parse_mud_file-eq-ok (some f) t h =
      let (mfi, parsed, e) =
        bind-eq-ok (parse_text env jc (env.contents t f)) (λ mfi. ok (some mfi, read_file f ∷ t))
          h in
      (f, mfi, (ok-pair e).0, (ok-pair e).1)

  apply_parsed-Grew :
      (m : Option MudFileInfo) (t : List Effect) {n : ℕ} {t' : List Effect}
      → apply_parsed env jc g m event t ≡ ok (n, t')
      → Grew t t'
  unfolding apply_parsed
  apply_parsed-Grew none t h = record { added = []; trace = (ok-pair h).1 }
  apply_parsed-Grew (some mud_file) t {n} h =
      let a = apply_mud_file-Applied env g event mud_file t h in
      record {
        added =
            finish env g event mud_file n
            ∷ rejection env g event mud_file
            ∷ (a.session ++ (removal env g event mud_file ∷ []));
        trace =
            a.trace
            ∙ ap (λ w. finish env g event mud_file n ∷ rejection env g event mud_file ∷ w)
                (sym (append_assoc a.session (removal env g event mud_file ∷ []) t));
      }

  pub execute_mud-Grew :
      (t : List Effect) {n : ℕ} {t' : List Effect}
      → execute_mud_with_dhcp_context env jc g event t ≡ ok (n, t')
      → Grew t t'
  unfolding execute_mud_with_dhcp_context install_mud_db_device_entry
  execute_mud-Grew t h =
      let ((m, u), parsed, rest) =
        exec_bind-eq-ok (parse_mud_file env jc event.mud_file_storage_location)
          (λ m. apply_parsed env jc g m event) (_ ∷ t) h in
      let (f, mfi, e, trace) =
        parse_mud_file-eq-ok event.mud_file_storage_location (_ ∷ t) parsed in
      Grew-trans (Grew-one _ t) (
        Grew-trans (record { added = read_file f ∷ []; trace = trace })
          (apply_parsed-Grew m u rest))
