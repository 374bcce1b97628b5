-- ===== src/Scripts/RoundTrip.antt =====
-- The commands of src/openwrt/openwrt.c as the shell and the loops of the scripts read them back.
use osmud.Prelude.{
  ℕ, Bool, true, false, not, ◌&&◌, Option, none, some, List, [], ◌∷◌, ◌≡◌, refl, ap, ◌∙◌, All,
  Bool-cases, inl, inr, arith,
}
use osmud.CString.{Bytes, codes, str_eq, has, shown}
use osmud.CString.Fields.{is_field, IsField-of_is_field}
use osmud.OpenWrt.{
  same_ignoring_case, FirewallRule, firewall_command, get_protocol_name, get_protocol_family,
  uci_firewall_script,
}
use osmud.Scripts.Shell.{
  IsWord, IsOption, arguments, command_text, read_command, read_command-command_text, simple,
  any_byte, is_blank, is_special, is_paren,
}
use osmud.Scripts.Getopts.{
  getopts, getopts-arguments, IsGiven, is_missing, is_missing-cons, takes_value, set_from,
}
use osmud.Scripts.Firewall.{RuleVariables, create_rule_options, rule_variables, lacks_variable}

-- Is the text one word that stands for itself?
abbrev pub is_plain : Bytes → Bool
is_plain w = is_field is_blank w && (not (any_byte is_special w) && not (any_byte is_paren w))

pub IsWord-of_is_plain : (w : Bytes) → is_plain w ≡ true → IsWord w
IsWord-of_is_plain w h = record {
  field = IsField-of_is_field is_blank w (ground arith);
  not_special = ground arith;
  no_paren = ground arith;
}

pub is_missing-IsWord : (w : Bytes) → IsWord w → is_missing w ≡ false
is_missing-IsWord [] h = absurd (h.field.ne_nil refl)
is_missing-IsWord (c ∷ cs) h = is_missing-cons c cs

pub protocol_name-IsWord : (p : Option Bytes) → IsWord (get_protocol_name p)
unfolding get_protocol_name any_byte has
protocol_name-IsWord none = IsWord-of_is_plain (codes "all") refl
protocol_name-IsWord (some p) = elim (Bool-cases (str_eq p (codes "all"))) [
  | inl e ↦ rw e (IsWord-of_is_plain (codes "all") refl)
  | inr e ↦ elim (Bool-cases (str_eq p (codes "6"))) [
    | inl e' ↦ rw (e, e') (IsWord-of_is_plain (codes "tcp") refl)
    | inr e' ↦ elim (Bool-cases (str_eq p (codes "17"))) [
      | inl e'' ↦ rw (e, e', e'') (IsWord-of_is_plain (codes "udp") refl)
      | inr e'' ↦ rw (e, e', e'') (IsWord-of_is_plain (codes "none") refl)
    ]
  ]
]

pub family-IsWord : (acl_type : Option Bytes) → IsWord (get_protocol_family acl_type)
unfolding get_protocol_family any_byte has
family-IsWord none = IsWord-of_is_plain (codes "all") refl
family-IsWord (some t) = elim (Bool-cases (same_ignoring_case t (codes "all"))) [
  | inl e ↦ rw e (IsWord-of_is_plain (codes "all") refl)
  | inr e ↦ elim (Bool-cases (same_ignoring_case t (codes "ipv6-acl"))) [
    | inl e' ↦ rw (e, e') (IsWord-of_is_plain (codes "ipv6") refl)
    | inr e' ↦ rw (e, e') (IsWord-of_is_plain (codes "ipv4") refl)
  ]
]

-- The texts of a rule that the command prints as they are.
pub record IsPlainRule (r : FirewallRule) (action : Bytes) : Type 0 where
  pub src_ip : IsWord (shown r.src_ip)
  pub dest_ip : IsWord (shown r.dest_ip)
  pub dest_port : IsWord r.dest_port
  pub src_device : IsWord r.src_device
  pub dest_device : IsWord r.dest_device
  pub rule_name : IsWord (shown r.rule_name)
  pub host_name : IsWord (shown r.host_name)
  pub action_word : IsWord action

-- the options of the command of a rule, in their order
abbrev pub rule_options : FirewallRule → Bytes → List (ℕ × Bytes)
rule_options r action =
    (b's', r.src_device)
    ∷ (b'd', r.dest_device)
    ∷ (b'i', shown r.src_ip)
    ∷ (b'a', codes "any")
    ∷ (b'j', shown r.dest_ip)
    ∷ (b'b', r.dest_port)
    ∷ (b'p', get_protocol_name r.protocol)
    ∷ (b'n', shown r.rule_name)
    ∷ (b't', action)
    ∷ (b'f', get_protocol_family r.acl_type)
    ∷ (b'c', shown r.host_name)
    ∷ []

-- the values of the script's variables for a rule
abbrev pub variables_of : FirewallRule → Bytes → RuleVariables
variables_of r action = record {
  target = action;
  proto = get_protocol_name r.protocol;
  src = r.src_device;
  src_ip = shown r.src_ip;
  src_port = codes "any";
  dest = r.dest_device;
  dest_ip = shown r.dest_ip;
  dest_port = r.dest_port;
  rule_name = shown r.rule_name;
  host_name = shown r.host_name;
  family = get_protocol_family r.acl_type;
}

firewall_command_lem :
    (r : FirewallRule) (action : Bytes)
    → firewall_command r action ≡ command_text uci_firewall_script (rule_options r action)
unfolding firewall_command
firewall_command_lem r action = refl

rule_options-IsOption :
    (r : FirewallRule) (action : Bytes)
    → IsPlainRule r action
    → All IsOption (rule_options r action)
unfolding has any_byte
rule_options-IsOption r action h = (
  (refl, h.src_device),
  (
    (refl, h.dest_device),
    (
      (refl, h.src_ip),
      (
        (refl, IsWord-of_is_plain (codes "any") refl),
        (
          (refl, h.dest_ip),
          (
            (refl, h.dest_port),
            (
              (refl, protocol_name-IsWord r.protocol),
              (
                (refl, h.rule_name),
                (
                  (refl, h.action_word),
                  ((refl, family-IsWord r.acl_type), ((refl, h.host_name), tt)),
                ),
              ),
            ),
          ),
        ),
      ),
    ),
  ),
)

rule_options-IsGiven :
    (r : FirewallRule) (action : Bytes) → All (IsGiven create_rule_options) (rule_options r action)
unfolding takes_value
rule_options-IsGiven r action = (
  (refl, refl),
  (
    (refl, refl),
    (
      (refl, refl),
      (
        (refl, refl),
        (
          (refl, refl),
          (
            (refl, refl),
            ((refl, refl), ((refl, refl), ((refl, refl), ((refl, refl), ((refl, refl), tt))))),
          ),
        ),
      ),
    ),
  ),
)

-- The shell reads the command of a rule as the script and its arguments, in which the loop of the
-- script finds the texts of the rule, and none is missing.
pub read_command-firewall_command :
    (r : FirewallRule) (action : Bytes)
    → IsPlainRule r action
    → read_command (firewall_command r action)
      ≡ simple (uci_firewall_script ∷ arguments (rule_options r action))
unfolding any_byte has
read_command-firewall_command r action h =
    ap read_command (firewall_command_lem r action)
    ∙ read_command-command_text uci_firewall_script (rule_options r action)
        (IsWord-of_is_plain uci_firewall_script refl) (rule_options-IsOption r action h)

pub getopts-rule_options :
    (r : FirewallRule) (action : Bytes)
    → getopts create_rule_options (arguments (rule_options r action)) ≡ some (rule_options r action)
getopts-rule_options r action =
    getopts-arguments create_rule_options (rule_options r action) (rule_options-IsGiven r action)

pub rule_variables-rule_options :
    (r : FirewallRule) (action : Bytes)
    → rule_variables (rule_options r action) ≡ variables_of r action
unfolding rule_variables set_from
rule_variables-rule_options r action = refl

pub lacks_variable-variables_of :
    (r : FirewallRule) (action : Bytes)
    → IsPlainRule r action
    → lacks_variable (variables_of r action) ≡ false
unfolding lacks_variable any_byte has
lacks_variable-variables_of r action h =
    rw
      (
        is_missing-IsWord action h.action_word,
        is_missing-IsWord _ h.host_name,
        is_missing-IsWord _ (family-IsWord r.acl_type),
        is_missing-IsWord _ (protocol_name-IsWord r.protocol),
        is_missing-IsWord _ h.src_device,
        is_missing-IsWord _ h.src_ip,
        is_missing-IsWord _ (IsWord-of_is_plain (codes "any") refl),
        is_missing-IsWord _ h.dest_device,
        is_missing-IsWord _ h.dest_ip,
        is_missing-IsWord _ h.dest_port,
      )
      refl
