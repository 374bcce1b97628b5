-- ===== src/Scripts/Quiet.antt =====
-- The commands of the rules, whatever their texts are: nothing is saved by them.
use osmud.Prelude.{
  ℕ, Bool, false, Option, none, some, List, ◌∷◌, ◌||◌, ◌≡◌, refl, ap, ◌∙◌, inl, inr, if◌then◌else◌,
  arith, Bool-cases,
}
use osmud.CString.{Bytes, codes, str_eq, snprintf}
use osmud.CString.Tokens.{words, words_from}
use osmud.OpenWrt.{
  FirewallRule, firewall_command, remove_rule_command, command, buf_size, uci_firewall_script,
  uci_firewall_remove_script,
}
use osmud.Scripts.Shell.{
  any_byte, before_paren, read_command, simple, syntax_error, is_blank, is_special, is_paren,
}
use osmud.Scripts.Getopts.{getopts, is_missing, variable}
use osmud.Scripts.Uci.{Uci, Section}
use osmud.Scripts.Firewall.{
  create_ip_fw_rule, create_rule_with, create_rule_of, create_rule_options, lacks_variable,
  rule_variables, remove_ip_fw_rule, remove_rule_with, remove_rule_options, rules_to_delete,
}
use osmud.Scripts.Install.{saved-add_firewall_rule}
use osmud.Scripts.Removal.{saved-delete_rules}
use osmud.Scripts.Machine.{World, Tools, run_effect, run_command_text, run_reading, run_program}

-- A text whose words begin with two that are known, also those before its first parenthesis.
pub record BeginsWith (script : Bytes) (text : Bytes) : Type 0 where
  pub second : Bytes
  pub more : List Bytes
  pub before : List Bytes
  pub whole : words is_blank text ≡ script ∷ second ∷ more
  pub front : words is_blank (before_paren text) ≡ script ∷ second ∷ before

-- How the shell takes such a text where it has no special byte: as a command of the script, or as a
-- syntax error where there is a parenthesis.
pub read_command-BeginsWith :
    (script text : Bytes) (b : BeginsWith script text)
    → any_byte is_special text ≡ false
    → read_command text
      ≡ (if any_byte is_paren text then syntax_error else simple (script ∷ b.second ∷ b.more))
unfolding read_command
read_command-BeginsWith script text b h = elim (Bool-cases (any_byte is_paren text)) [
  | inl e ↦ rw (h, e, b.front) (ground arith)
  | inr e ↦ rw (h, e, b.whole) refl
]

pub firewall-BeginsWith :
    (r : FirewallRule) (action : Bytes)
    → BeginsWith uci_firewall_script (snprintf buf_size (firewall_command r action))
unfolding snprintf firewall_command words words_from before_paren
firewall-BeginsWith r action = record {
  second = codes "-s";
  more = _;
  before = _;
  whole = refl;
  front = refl;
}

remove-BeginsWith :
    (ip mac : Option Bytes)
    → BeginsWith uci_firewall_remove_script (snprintf buf_size (remove_rule_command ip mac))
unfolding snprintf remove_rule_command words words_from before_paren
remove-BeginsWith ip mac = record {
  second = codes "-i";
  more = _;
  before = _;
  whole = refl;
  front = refl;
}

module _ {S : Type 0} (uci : Uci S) where
  saved-create_rule_with :
      (o : Option (List (ℕ × Bytes))) (s : S) → uci.saved (create_rule_with uci o s).1 ≡ uci.saved s
  unfolding create_rule_with create_rule_of
  saved-create_rule_with none s = refl
  saved-create_rule_with (some options) s =
      elim (Bool-cases (lacks_variable (rule_variables options))) [
        | inl e ↦ rw e refl
        | inr e ↦ rw e (saved-add_firewall_rule uci (rule_variables options) s)
      ]

  saved-remove_rule_with :
      (matches : Bytes → Bytes → Bool) (o : Option (List (ℕ × Bytes))) (s : S)
      → uci.saved (remove_rule_with uci matches o s).1 ≡ uci.saved s
  unfolding remove_rule_with
  saved-remove_rule_with matches none s = refl
  saved-remove_rule_with matches (some options) s =
      elim (Bool-cases (is_missing (variable b'i' options) || is_missing (variable b'm' options))) [
        | inl e ↦ rw e refl
        | inr e ↦
            rw e (saved-delete_rules uci (rules_to_delete uci matches (variable b'i' options) s) s)
      ]

module _ {S : Type 0} (tools : Tools S) where
  abbrev saved_in : World S → List Section
  saved_in w = tools.uci.saved w.config

  -- The command of a rule saves nothing, whatever the texts of the rule are, as long as they have no
  -- byte that is special for the shell; nor does the command that removes the rules of a device.
  pub firewall_command-saved :
      (r : FirewallRule) (action : Bytes) (w : World S)
      → any_byte is_special (snprintf buf_size (firewall_command r action)) ≡ false
      → tools.uci.saved (run_effect tools (command (firewall_command r action)) w).1.config
        ≡ tools.uci.saved w.config
  unfolding run_command_text run_reading run_program str_eq create_ip_fw_rule
  firewall_command-saved r action w h =
      let text = snprintf buf_size (firewall_command r action) in
      let b = firewall-BeginsWith r action in
      ap (λ o. saved_in (run_reading tools text o w).1)
        (read_command-BeginsWith uci_firewall_script text b h)
      ∙ elim (Bool-cases (any_byte is_paren text)) [
        | inl e ↦ rw e refl
        | inr e ↦ rw e (
            saved-create_rule_with tools.uci (getopts create_rule_options (b.second ∷ b.more))
              w.config)
      ]

  pub remove_rule_command-saved :
      (ip mac : Option Bytes) (w : World S)
      → any_byte is_special (snprintf buf_size (remove_rule_command ip mac)) ≡ false
      → tools.uci.saved (run_effect tools (command (remove_rule_command ip mac)) w).1.config
        ≡ tools.uci.saved w.config
  unfolding run_command_text run_reading run_program str_eq remove_ip_fw_rule
  remove_rule_command-saved ip mac w h =
      let text = snprintf buf_size (remove_rule_command ip mac) in
      let b = remove-BeginsWith ip mac in
      ap (λ o. saved_in (run_reading tools text o w).1)
        (read_command-BeginsWith uci_firewall_remove_script text b h)
      ∙ elim (Bool-cases (any_byte is_paren text)) [
        | inl e ↦ rw e refl
        | inr e ↦ rw e (
            saved-remove_rule_with tools.uci tools.matches
              (getopts remove_rule_options (b.second ∷ b.more)) w.config)
      ]
