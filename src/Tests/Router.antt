-- ===== src/Tests/Router.antt =====
-- A router at concrete states: `uci` as two lists of sections, and an environment whose commands run
-- the scripts on it.
use osmud.Prelude.{
  ℕ, suc, Bool, true, false, ◌||◌, List, [], ◌∷◌, ◌++◌, ◌≡◌, refl, ap, ◌∙◌, if◌then◌else◌,
}
use osmud.CString.{Bytes, codes, str_eq}
use osmud.CString.Decimal.{decimal, decimal-value, value_of}
use osmud.Outside.{Env, Effect, system}
use osmud.Scripts.Uci.{Uci, Section, put, remove_at}
use osmud.Scripts.Machine.{World, Tools, run_command_text, replay, RunsScripts}
use osmud.Tests.Samples.{calm}

pub record Config : Type 0 where
  pub rules : List Section
  pub saved : List Section

unfoldable pub on_last : (Section → Section) → List Section → List Section
on_last f [] = []
on_last f (x ∷ []) = f x ∷ []
on_last f (x ∷ y ∷ more) = x ∷ on_last f (y ∷ more)

pub on_last-append :
    (f : Section → Section) (before : List Section) (x : Section)
    → on_last f (before ++ (x ∷ [])) ≡ before ++ (f x ∷ [])
unfolding on_last
on_last-append f [] x = refl
on_last-append f (y ∷ []) x = refl
on_last-append f (y ∷ z ∷ before) x = ap (◌∷◌ y) (on_last-append f (z ∷ before) x)

-- `firewall.@rule[3].src_ip='10.0.0.7'` for each option
unfoldable pub option_lines : ℕ → Section → List Bytes
option_lines n [] = []
option_lines n ((name, v) ∷ more) =
    (codes "firewall.@rule["
      ++ (decimal n ++ (codes "]." ++ (name ++ (codes "='" ++ (v ++ codes "'"))))))
    ∷ option_lines n more

unfoldable pub rule_lines : ℕ → List Section → List Bytes
unfolding option_lines
rule_lines n [] = []
rule_lines n (x ∷ more) = option_lines n x ++ rule_lines (suc n) more

unfoldable pub starts_with : Bytes → Bytes → Bool
starts_with [] line = true
starts_with (c ∷ cs) [] = false
starts_with (c ∷ cs) (x ∷ xs) = if str_eq (c ∷ []) (x ∷ []) then starts_with cs xs else false

unfoldable pub occurs_in : Bytes → Bytes → Bool
occurs_in text [] = starts_with text []
occurs_in text (x ∷ xs) = starts_with text (x ∷ xs) || occurs_in text xs

abbrev pub list_uci : Uci Config
list_uci = record {
  add_rule = λ s. record s { rules = s.rules ++ ([] ∷ []) };
  set_last = λ name v s. record s { rules = on_last (put name v) s.rules };
  delete_rule = λ n s. record s { rules = remove_at (value_of 0 n) s.rules };
  show = λ s. rule_lines 0 s.rules;
  commit = λ s. record s { saved = s.rules };
  revert = λ s. record s { rules = s.saved };
  rules = λ s. s.rules;
  saved = λ s. s.saved;
  rules-add_rule = λ s. refl;
  rules-set_last = λ name v s before x full h.
      ap (on_last (put name v)) h ∙ on_last-append (put name v) before x;
  rules-commit = λ s. refl;
  saved-commit = λ s. refl;
  rules-revert = λ s. refl;
  saved-revert = λ s. refl;
  saved-add_rule = λ s. refl;
  saved-set_last = λ name v s. refl;
  saved-delete_rule = λ n s. refl;
  rules-delete_rule = λ n s. ap (λ m. remove_at m s.rules) (decimal-value n);
}

-- every other program ends with status 0 and changes nothing
abbrev pub router_tools : Tools Config
router_tools = record {
  uci = list_uci;
  matches = occurs_in;
  other = λ e w. (0, w);
  other-config = λ e w h. refl;
}

abbrev pub own_section : Section
own_section = (codes "src_ip", codes "10.0.0.7") ∷ []

abbrev pub other_section : Section
other_section = (codes "src_ip", codes "10.0.0.9") ∷ []

-- a rule of another device, and one of the device 10.0.0.7
abbrev pub router : World Config
router = record {
  config = record {
    rules = other_section ∷ own_section ∷ [];
    saved = other_section ∷ own_section ∷ [];
  };
  files = λ file. [];
}

-- Is the section about 10.0.0.7?
unfoldable pub is_own : Section → Bool
is_own [] = false
is_own ((name, v) ∷ more) = str_eq v (codes "10.0.0.7") || is_own more

abbrev pub status_of : List Effect → Effect → ℕ
status_of t (system text) = (run_command_text router_tools text (replay router_tools router t)).0
status_of t e = 0

abbrev pub routed : Env
routed = record calm { status = status_of }

pub routed-RunsScripts : RunsScripts router_tools router routed
routed-RunsScripts = λ t text. refl
