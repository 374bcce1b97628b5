-- ===== src/Scripts/Removal.antt =====
-- What remove_ip_fw_rule.sh leaves of the rules.
use mathlib.Core.List.{map-append, append_assoc, append-nil}
use osmud.Prelude.{
  ℕ, suc, ◌≤◌, Bool, true, false, List, [], ◌∷◌, ◌++◌, ◌≡◌, refl, sym, ap, ◌∙◌, arith, length,
  length-append, All, map, Bool-cases, inl, inr,
}
use osmud.CString.{Bytes}
use osmud.CString.Decimal.{decimal}
use osmud.Scripts.Uci.{Uci, Section, remove_at}
use osmud.Scripts.Firewall.{
  delete_rules, rules_to_delete, matching, rule_index, sort_reverse, loop_words,
}
use osmud.Scripts.Indices.{
  indices, descending, others, descending-Between, sort_reverse-indices, loop_words-digits,
  indices-free, indices-two, nine_first, remove_at-beyond,
}

module _ {S : Type 0} (uci : Uci S) where
  remove_at-append :
      (before : List Section) (x : Section) (xs : List Section)
      → remove_at (length before) (before ++ (x ∷ xs)) ≡ before ++ xs
  unfolding remove_at
  remove_at-append [] x xs = refl
  remove_at-append (y ∷ before) x xs = ap (◌∷◌ y) (remove_at-append before x xs)

  delete_rules-append :
      (first then_these : List Bytes) (s : S)
      → delete_rules uci (first ++ then_these) s
        ≡ delete_rules uci then_these (delete_rules uci first s)
  unfolding delete_rules
  delete_rules-append [] bs s = refl
  delete_rules-append (a ∷ more) bs s = delete_rules-append more bs (uci.delete_rule a s)

  -- The deletion from the last index down takes exactly the sections away that the test holds for.
  delete_rules-descending :
      (p : Section → Bool) (k : ℕ) (before xs : List Section) (s : S)
      → length before ≡ k
      → uci.rules s ≡ before ++ xs
      → uci.rules (delete_rules uci (map decimal (descending p k xs)) s) ≡ before ++ others p xs
  unfolding delete_rules descending others
  delete_rules-descending p k before [] s at h = h
  delete_rules-descending p k before (x ∷ xs) s at h =
      let ih =
        delete_rules-descending p (suc k) (before ++ (x ∷ [])) xs s
          (omega (arith, at, length-append before (x ∷ [])))
          (h ∙ sym (append_assoc before (x ∷ []) xs))
        ∙ append_assoc before (x ∷ []) (others p xs) in
      elim (Bool-cases (p x)) [
        | inl e ↦ rw e (
            ap (λ l. uci.rules (delete_rules uci l s))
              (map-append decimal (descending p (suc k) xs) (k ∷ []))
            ∙ ap uci.rules (delete_rules-append (map decimal (descending p (suc k) xs)) _ s)
            ∙ uci.rules-delete_rule k _
            ∙ ap (remove_at k) ih
            ∙ ap (λ n. remove_at n (before ++ (x ∷ others p xs))) (sym at)
            ∙ remove_at-append before x (others p xs))
        | inr e ↦ rw (e, append-nil) ih
      ]

  -- Each rule that `p` holds for has one line that matches, and no other line matches.
  abbrev pub ShowsOnce : (Bytes → Bytes → Bool) → Bytes → (Section → Bool) → S → Type 0
  ShowsOnce matches ip p s =
      map rule_index (matching (matches ip) (uci.show s)) ≡ map decimal (indices p 0 (uci.rules s))

  -- Where at most 10 rules are there and each rule of the device shows in one line and no other
  -- line matches, exactly the rules of the device are deleted, and the others keep their order.
  pub delete_rules-rules_to_delete :
      (matches : Bytes → Bytes → Bool) (ip : Bytes) (p : Section → Bool) (s : S)
      → ShowsOnce matches ip p s
      → length (uci.rules s) ≤ 10
      → uci.rules (delete_rules uci (rules_to_delete uci matches ip s) s) ≡ others p (uci.rules s)
  unfolding rules_to_delete
  delete_rules-rules_to_delete matches ip p s once few =
      let xs = uci.rules s in
      let sorted =
        ap (λ l. loop_words (sort_reverse l)) once
        ∙ ap loop_words (sort_reverse-indices p 0 xs (omega (arith, few)))
        ∙ loop_words-digits 0 (descending p 0 xs)
            (descending-Between p 0 xs 10 (omega (arith, few))) in
      ap (λ l. uci.rules (delete_rules uci l s)) sorted
      ∙ delete_rules-descending p 0 [] xs s refl refl

  pub saved-delete_rules :
      (numbers : List Bytes) (s : S) → uci.saved (delete_rules uci numbers s) ≡ uci.saved s
  unfolding delete_rules
  saved-delete_rules [] s = refl
  saved-delete_rules (n ∷ more) s =
      saved-delete_rules more (uci.delete_rule n s) ∙ uci.saved-delete_rule n s

  -- With nine rules of others before two of the device, where each of the two shows in one line and
  -- no other line matches the address, only the first of the two is deleted: in the order of `sort
  -- -r` the index 9 stands before 10.
  pub delete_rules-eleven :
      (matches : Bytes → Bytes → Bool) (ip : Bytes) (p : Section → Bool) (s : S)
      (before : List Section) (x y : Section)
      → uci.rules s ≡ before ++ (x ∷ y ∷ [])
      → length before ≡ 9
      → All (λ z. p z ≡ false) before
      → p x ≡ true
      → p y ≡ true
      → ShowsOnce matches ip p s
      → uci.rules (delete_rules uci (rules_to_delete uci matches ip s) s) ≡ before ++ (y ∷ [])
  unfolding rules_to_delete delete_rules
  delete_rules-eleven matches ip p s before x y h nine free px py once =
      let found =
        ap (indices p 0) h
        ∙ indices-free p 9 0 before (x ∷ y ∷ []) nine free
        ∙ indices-two p 9 x y px py in
      let sorted =
        ap (λ l. loop_words (sort_reverse l)) (once ∙ ap (map decimal) found) ∙ nine_first in
      let left =
        uci.rules-delete_rule 9 s
        ∙ ap (remove_at 9) h
        ∙ ap (λ n. remove_at n (before ++ (x ∷ y ∷ []))) (sym nine)
        ∙ remove_at-append before x (y ∷ []) in
      ap (λ l. uci.rules (delete_rules uci l s)) sorted
      ∙ uci.rules-delete_rule 10 _
      ∙ ap (remove_at 10) left
      ∙ remove_at-beyond 10 (before ++ (y ∷ []))
          (omega (arith, nine, length-append before (y ∷ [])))
