-- ===== src/Scripts/Install.antt =====
-- The command of a rule, through the shell and create_ip_fw_rule.sh, into the configuration.
use osmud.Scripts.Getopts.{is_missing, slash_for_blank}
use osmud.Prelude.{
  ◌≢◌, Bool, true, false, not, ◌&&◌, List, [], ◌∷◌, ◌++◌, ◌≡◌, refl, ap, ◌∙◌, if◌then◌else◌,
  Bool-cases, inl, inr, arith,
}
use mathlib.Core.List.{append-nil}
use osmud.CString.{Bytes, codes, str_eq}
use osmud.Scripts.Uci.{Uci, Section, put}
use osmud.Scripts.Firewall.{
  lacks_variable, RuleVariables, add_firewall_rule, set_unless, final_host_name,
}

-- an option of a section, unless the value stands for any
abbrev pub unless : Bytes → Bytes → Bytes → Section
unless wildcard name v = if str_eq v wildcard then [] else (name, v) ∷ []

-- the options that are always set
abbrev pub first_options : RuleVariables → Section
first_options v =
    (codes "enabled", codes "1")
    ∷ (codes "name", codes "mud_" ++ (v.host_name ++ (b'_' ∷ v.rule_name)))
    ∷ (codes "target", v.target)
    ∷ (codes "src", v.src)
    ∷ (codes "src_ip", v.src_ip)
    ∷ (codes "dest", v.dest)
    ∷ []

-- the section for a rule
unfoldable pub section_of : RuleVariables → Section
section_of v =
    first_options v
    ++ unless (codes "all") (codes "proto") v.proto
    ++ unless (codes "all") (codes "family") v.family
    ++ unless (codes "any") (codes "src_port") v.src_port
    ++ unless (codes "any") (codes "dest_ip") v.dest_ip
    ++ unless (codes "any") (codes "dest_port") v.dest_port

present : (v : Bytes) → is_missing v ≡ false → v ≢ []
unfolding is_missing slash_for_blank
present [] h e = cc
present (c ∷ cs) h e = cc e

-- The variables that the script wants are set.
record IsComplete (v : RuleVariables) : Type 0 where
  target : v.target ≢ []
  proto : v.proto ≢ []
  src : v.src ≢ []
  src_ip : v.src_ip ≢ []
  src_port : v.src_port ≢ []
  dest : v.dest ≢ []
  dest_ip : v.dest_ip ≢ []
  dest_port : v.dest_port ≢ []
  family : v.family ≢ []

IsComplete-of_lacks_variable : (v : RuleVariables) → lacks_variable v ≡ false → IsComplete v
unfolding lacks_variable
IsComplete-of_lacks_variable v h = record {
  target = present v.target (ground (arith, h));
  proto = present v.proto (ground (arith, h));
  src = present v.src (ground (arith, h));
  src_ip = present v.src_ip (ground (arith, h));
  src_port = present v.src_port (ground (arith, h));
  dest = present v.dest (ground (arith, h));
  dest_ip = present v.dest_ip (ground (arith, h));
  dest_port = present v.dest_port (ground (arith, h));
  family = present v.family (ground (arith, h));
}

-- Does no option of the section have the name?
abbrev lacks : Bytes → Section → Bool
lacks name [] = true
lacks name ((n, v) ∷ x) = not (str_eq n name) && lacks name x

put-lacks :
    (name v : Bytes) (x : Section) → lacks name x ≡ true → put name v x ≡ x ++ ((name, v) ∷ [])
unfolding put
put-lacks name v [] h = refl
put-lacks name v ((n, w) ∷ x) h =
    let e : str_eq n name ≡ false = ground arith in
    let more : lacks name x ≡ true = ground arith in
    rw (e, if◌then◌else◌) (ap (◌∷◌ (n, w)) (put-lacks name v x more))

lacks-append :
    (wildcard other name v : Bytes) (x : Section)
    → lacks name x ≡ true
    → str_eq other name ≡ false
    → lacks name (x ++ unless wildcard other v) ≡ true
lacks-append wildcard other name v [] h e = ground (arith, e)
lacks-append wildcard other name v ((n, w) ∷ x) h e =
    ground (arith, h, lacks-append wildcard other name v x (ground arith) e)

module _ {S : Type 0} (uci : Uci S) where
  -- The last rule is `x`, behind the rules `before`.
  abbrev Last : List Section → Section → S → Type 0
  Last before x s = uci.rules s ≡ before ++ (x ∷ [])

  Last-set_unless :
      (wildcard name v : Bytes) (before : List Section) (x : Section) (s : S)
      → v ≢ []
      → lacks name x ≡ true
      → Last before x s
      → Last before (x ++ unless wildcard name v) (set_unless uci wildcard name v s)
  unfolding set_unless
  Last-set_unless wildcard name v before x s full lacking h =
      elim (Bool-cases (str_eq v wildcard)) [
        | inl e ↦ rw (e, append-nil) h
        | inr e ↦ rw e (
            uci.rules-set_last name v s before x full h
            ∙ ap (λ y. before ++ (y ∷ [])) (put-lacks name v x lacking))
      ]

  saved-set_unless :
      (wildcard name v : Bytes) (s : S) → uci.saved (set_unless uci wildcard name v s) ≡ uci.saved s
  unfolding set_unless
  saved-set_unless wildcard name v s = elim (Bool-cases (str_eq v wildcard)) [
    | inl e ↦ rw e refl
    | inr e ↦ rw e (uci.saved-set_last name v s)
  ]

  -- The calls for a rule put its section behind the others.
  pub rules-add_firewall_rule :
      (v : RuleVariables) (s : S)
      → lacks_variable v ≡ false
      → uci.rules (add_firewall_rule uci v s) ≡ uci.rules s ++ (section_of v ∷ [])
  unfolding add_firewall_rule section_of final_host_name put str_eq
  rules-add_firewall_rule v s complete =
      let full = IsComplete-of_lacks_variable v complete in
      let before = uci.rules s in
      let enabled =
        uci.rules-set_last (codes "enabled") (codes "1") _ before [] (λ e. cc e)
          (uci.rules-add_rule s) in
      let named =
        uci.rules-set_last (codes "name") (final_host_name v) _ before _ (λ e. cc e) enabled in
      let target = uci.rules-set_last (codes "target") v.target _ before _ full.target named in
      let src = uci.rules-set_last (codes "src") v.src _ before _ full.src target in
      let src_ip = uci.rules-set_last (codes "src_ip") v.src_ip _ before _ full.src_ip src in
      let dest = uci.rules-set_last (codes "dest") v.dest _ before _ full.dest src_ip in
      let x = first_options v in
      let x1 = x ++ unless (codes "all") (codes "proto") v.proto in
      let x2 = x1 ++ unless (codes "all") (codes "family") v.family in
      let x3 = x2 ++ unless (codes "any") (codes "src_port") v.src_port in
      let x4 = x3 ++ unless (codes "any") (codes "dest_ip") v.dest_ip in
      let no1 = λ (n : Bytes). lacks-append (codes "all") (codes "proto") n v.proto x in
      let no2 = λ (n : Bytes). lacks-append (codes "all") (codes "family") n v.family x1 in
      let no3 = λ (n : Bytes). lacks-append (codes "any") (codes "src_port") n v.src_port x2 in
      let no4 = λ (n : Bytes). lacks-append (codes "any") (codes "dest_ip") n v.dest_ip x3 in
      let proto =
        Last-set_unless (codes "all") (codes "proto") v.proto before x _ full.proto refl dest in
      let family =
        Last-set_unless (codes "all") (codes "family") v.family before x1 _ full.family
          (no1 (codes "family") refl refl) proto in
      let src_port =
        Last-set_unless (codes "any") (codes "src_port") v.src_port before x2 _ full.src_port
          (no2 (codes "src_port") (no1 (codes "src_port") refl refl) refl) family in
      let dest_ip =
        Last-set_unless (codes "any") (codes "dest_ip") v.dest_ip before x3 _ full.dest_ip
          (no3 (codes "dest_ip") (no2 (codes "dest_ip") (no1 (codes "dest_ip") refl refl) refl)
            refl)
          src_port in
      Last-set_unless (codes "any") (codes "dest_port") v.dest_port before x4 _ full.dest_port
        (no4 (codes "dest_port")
          (no3 (codes "dest_port")
            (no2 (codes "dest_port") (no1 (codes "dest_port") refl refl) refl) refl)
          refl)
        dest_ip

  pub saved-add_firewall_rule :
      (v : RuleVariables) (s : S) → uci.saved (add_firewall_rule uci v s) ≡ uci.saved s
  unfolding add_firewall_rule
  saved-add_firewall_rule v s = simp (saved-set_unless, uci.saved-set_last, uci.saved-add_rule)
