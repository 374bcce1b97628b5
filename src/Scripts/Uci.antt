-- ===== src/Scripts/Uci.antt =====
-- `uci`, the configuration of OpenWrt: what the scripts ask of it, and what they rely on.
use osmud.Prelude.{◌≢◌, ℕ, zero, suc, List, [], ◌∷◌, ◌++◌, ◌≡◌, if◌then◌else◌}
use osmud.CString.Decimal.{decimal}
use osmud.CString.{Bytes, str_eq}

-- a section `config rule`: its options with their values, in their order
abbrev pub Section : Type 0
Section = List (Bytes × Bytes)

-- An option that is there keeps its place.
unfoldable pub put : Bytes → Bytes → Section → Section
put name v [] = (name, v) ∷ []
put name v ((n, w) ∷ more) =
    let rest = put name v more in if str_eq n name then (name, v) ∷ more else (n, w) ∷ rest

-- The sections without the one with an index.
unfoldable pub remove_at : ℕ → List Section → List Section
remove_at n [] = []
remove_at zero (x ∷ xs) = xs
remove_at (suc n) (x ∷ xs) = x ∷ remove_at n xs

-- The configuration of the firewall in a state `S`: the rules as they are saved, and with the changes
-- that are not committed. The laws are of calls that succeed: the scripts do not look at a status. To
-- set an option to the empty text is not described.
pub record Uci (S : Type 0) : Type 0 where
  -- `uci add firewall rule`
  pub add_rule : S → S
  -- `uci set firewall.@rule[-1].name=value`
  pub set_last : Bytes → Bytes → S → S
  -- `uci delete firewall.@rule[text]`
  pub delete_rule : Bytes → S → S
  -- `uci show firewall`, its lines
  pub show : S → List Bytes
  -- `uci commit firewall`
  pub commit : S → S
  -- `uci revert firewall`
  pub revert : S → S
  -- the sections `rule` with the changes, and as saved
  pub rules : S → List Section
  pub saved : S → List Section
  pub rules-add_rule : (s : S) → rules (add_rule s) ≡ rules s ++ ([] ∷ [])
  pub rules-set_last :
      (name v : Bytes) (s : S) (before : List Section) (x : Section)
      → v ≢ []
      → rules s ≡ before ++ (x ∷ [])
      → rules (set_last name v s) ≡ before ++ (put name v x ∷ [])
  pub rules-commit : (s : S) → rules (commit s) ≡ rules s
  pub saved-commit : (s : S) → saved (commit s) ≡ rules s
  pub rules-revert : (s : S) → rules (revert s) ≡ saved s
  pub saved-revert : (s : S) → saved (revert s) ≡ saved s
  pub saved-add_rule : (s : S) → saved (add_rule s) ≡ saved s
  pub saved-set_last : (name v : Bytes) (s : S) → saved (set_last name v s) ≡ saved s
  pub saved-delete_rule : (n : Bytes) (s : S) → saved (delete_rule n s) ≡ saved s
  pub rules-delete_rule :
      (n : ℕ) (s : S) → rules (delete_rule (decimal n) s) ≡ remove_at n (rules s)
