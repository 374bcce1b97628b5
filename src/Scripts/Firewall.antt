-- ===== src/Scripts/Firewall.antt =====
-- src/openwrt/create_ip_fw_rule.sh, remove_ip_fw_rule.sh, commit_ip_fw_rules.sh and
-- rollback_ip_fw_rules.sh. A script takes its arguments and the state of `uci` and gives its exit
-- status and the new state. The restart of the firewall reads what is saved.
use osmud.Prelude.{
  Option, map, ltb, ◌&&◌, ℕ, Bool, true, false, ◌||◌, none, some, List, [], ◌∷◌, ◌++◌,
  if◌then◌else◌, ◌==◌,
}
use osmud.CString.Tokens.{split}
use osmud.CString.{Bytes, codes, str_eq}
use osmud.Scripts.Getopts.{getopts, variable, is_missing}
use osmud.Scripts.Uci.{Uci}

-- the string of options of create_ip_fw_rule.sh
abbrev pub create_rule_options : Bytes
create_rule_options = codes "ht:p:s:i:a:d:j:b:n:f:c:"

-- the string of options of remove_ip_fw_rule.sh
abbrev pub remove_rule_options : Bytes
remove_rule_options = codes "hi:m:"

-- the variables of create_ip_fw_rule.sh
pub record RuleVariables : Type 0 where
  pub target : Bytes
  pub proto : Bytes
  pub src : Bytes
  pub src_ip : Bytes
  pub src_port : Bytes
  pub dest : Bytes
  pub dest_ip : Bytes
  pub dest_port : Bytes
  pub rule_name : Bytes
  pub host_name : Bytes
  pub family : Bytes

-- what the loop over the options sets
unfoldable pub rule_variables : List (ℕ × Bytes) → RuleVariables
rule_variables options = record {
  target = variable b't' options;
  proto = variable b'p' options;
  src = variable b's' options;
  src_ip = variable b'i' options;
  src_port = variable b'a' options;
  dest = variable b'd' options;
  dest_ip = variable b'j' options;
  dest_port = variable b'b' options;
  rule_name = variable b'n' options;
  host_name = variable b'c' options;
  family = variable b'f' options;
}

-- Is one of the variables missing, which all but the rule's name must be set?
unfoldable pub lacks_variable : RuleVariables → Bool
lacks_variable v =
    is_missing v.target
    || (is_missing v.host_name
        || (is_missing v.family
            || (is_missing v.proto
                || (is_missing v.src
                    || (is_missing v.src_ip
                        || (is_missing v.src_port
                            || (is_missing v.dest
                                || (is_missing v.dest_ip || is_missing v.dest_port))))))))

-- `FINAL_HOST_NAME`
unfoldable pub final_host_name : RuleVariables → Bytes
final_host_name v = codes "mud_" ++ (v.host_name ++ (b'_' ∷ v.rule_name))

-- the field behind the first `c` of a line: `awk -F c '{print $2}'`
unfoldable pub second_field : ℕ → Bytes → Bytes
unfolding split
second_field c line = (split (λ x. x == c) (split (λ x. x == c) line).1).0

-- the field before the first `c`: `awk -F c '{print $1}'`
unfoldable pub first_field : ℕ → Bytes → Bytes
unfolding split
first_field c line = (split (λ x. x == c) line).0

-- the index in a line such as `firewall.@rule[3].src_ip='192.168.1.7'`
unfoldable pub rule_index : Bytes → Bytes
unfolding second_field first_field
rule_index line = first_field b']' (second_field b'[' line)

-- Does `a` not stand behind `b` in the order of the bytes?
unfoldable pub not_after : Bytes → Bytes → Bool
not_after [] b = true
not_after (x ∷ xs) [] = false
not_after (x ∷ xs) (y ∷ ys) = ltb x y || (x == y && not_after xs ys)

-- `sort -r`
unfoldable pub insert_line : Bytes → List Bytes → List Bytes
insert_line a [] = a ∷ []
insert_line a (b ∷ more) =
    let rest = insert_line a more in if not_after b a then a ∷ b ∷ more else b ∷ rest

unfoldable pub sort_reverse : List Bytes → List Bytes
sort_reverse [] = []
sort_reverse (a ∷ more) = insert_line a (sort_reverse more)

-- the lines that `matches` an expression
unfoldable pub matching : (Bytes → Bool) → List Bytes → List Bytes
matching p [] = []
matching p (x ∷ xs) = if p x then x ∷ matching p xs else matching p xs

-- an empty line gives no word to the loop
unfoldable pub loop_words : List Bytes → List Bytes
loop_words [] = []
loop_words ([] ∷ more) = loop_words more
loop_words ((c ∷ cs) ∷ more) = (c ∷ cs) ∷ loop_words more

module _ {S : Type 0} (uci : Uci S) where
  -- `if [ ${X} != 'wildcard' ]; then uci set ...=${X}; fi`
  unfoldable pub set_unless : Bytes → Bytes → Bytes → S → S
  set_unless wildcard name v s = if str_eq v wildcard then s else uci.set_last name v s

  -- the calls of `uci` for a rule
  unfoldable pub add_firewall_rule : RuleVariables → S → S
  unfolding set_unless final_host_name
  add_firewall_rule v s = set_unless (codes "any") (codes "dest_port") v.dest_port (
      set_unless (codes "any") (codes "dest_ip") v.dest_ip (
        set_unless (codes "any") (codes "src_port") v.src_port (
          set_unless (codes "all") (codes "family") v.family (
            set_unless (codes "all") (codes "proto") v.proto (
              uci.set_last (codes "dest") v.dest (
                uci.set_last (codes "src_ip") v.src_ip (
                  uci.set_last (codes "src") v.src (
                    uci.set_last (codes "target") v.target (
                      uci.set_last (codes "name") (final_host_name v)
                        (uci.set_last (codes "enabled") (codes "1") (uci.add_rule s)))))))))))

  -- behind the loop over the options
  unfoldable pub create_rule_of : RuleVariables → S → ℕ × S
  unfolding lacks_variable add_firewall_rule
  create_rule_of v s = if lacks_variable v then (1, s) else (0, add_firewall_rule v s)

  -- the end of the loop; `usage` ends a script with status 0
  unfoldable pub create_rule_with : Option (List (ℕ × Bytes)) → S → ℕ × S
  unfolding rule_variables create_rule_of
  create_rule_with none s = (0, s)
  create_rule_with (some options) s = create_rule_of (rule_variables options) s

  unfoldable pub create_ip_fw_rule : List Bytes → S → ℕ × S
  unfolding create_rule_with
  create_ip_fw_rule args s = create_rule_with (getopts create_rule_options args) s

  -- the loop over `SORTED_RULES`
  unfoldable pub delete_rules : List Bytes → S → S
  delete_rules [] s = s
  delete_rules (number ∷ more) s = delete_rules more (uci.delete_rule number s)

  -- `SORTED_RULES`, where `matches ip line` is the test of `awk '/ip/'`
  unfoldable pub rules_to_delete : (Bytes → Bytes → Bool) → Bytes → S → List Bytes
  unfolding matching sort_reverse loop_words rule_index
  rules_to_delete matches device_ip s =
      loop_words (sort_reverse (map rule_index (matching (matches device_ip) (uci.show s))))

  -- behind the loop over the options
  unfoldable pub remove_rule_with : (Bytes → Bytes → Bool) → Option (List (ℕ × Bytes)) → S → ℕ × S
  unfolding delete_rules rules_to_delete
  remove_rule_with matches none s = (0, s)
  remove_rule_with matches (some options) s =
      let device_ip = variable b'i' options in
      if is_missing device_ip || is_missing (variable b'm' options)
      then (1, s)
      else (0, delete_rules (rules_to_delete matches device_ip s) s)

  unfoldable pub remove_ip_fw_rule : (Bytes → Bytes → Bool) → List Bytes → S → ℕ × S
  unfolding remove_rule_with
  remove_ip_fw_rule matches args s = remove_rule_with matches (getopts remove_rule_options args) s

  unfoldable pub commit_ip_fw_rules : S → ℕ × S
  commit_ip_fw_rules s = (0, uci.commit s)

  unfoldable pub rollback_ip_fw_rules : S → ℕ × S
  rollback_ip_fw_rules s = (0, uci.revert s)
