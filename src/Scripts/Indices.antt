-- ===== src/Scripts/Indices.antt =====
-- The indices that remove_ip_fw_rule.sh sorts and deletes, as texts and as numbers.
use mathlib.Core.List.{append-nil}
use osmud.Prelude.{
  ℕ, zero, suc, ◌+◌, ◌<◌, ◌≤◌, Bool, true, false, List, [], ◌∷◌, ◌++◌, ◌≡◌, refl, ap, ◌∙◌,
  if◌then◌else◌, arith, length, All, All-append, map, Bool-cases, inl, inr,
}
use osmud.CString.Decimal.{digits, decimal, decimal_digit}
use osmud.Scripts.Uci.{Section, remove_at}
use osmud.Scripts.Firewall.{sort_reverse, insert_line, not_after, loop_words}

-- the indices of the sections that a test holds for, counted from `k`
unfoldable pub indices : (Section → Bool) → ℕ → List Section → List ℕ
indices p k [] = []
indices p k (x ∷ xs) = if p x then k ∷ indices p (suc k) xs else indices p (suc k) xs

-- the same, the last one first
unfoldable pub descending : (Section → Bool) → ℕ → List Section → List ℕ
descending p k [] = []
descending p k (x ∷ xs) = descending p (suc k) xs ++ (if p x then k ∷ [] else [])

-- the sections that a test does not hold for
unfoldable pub others : (Section → Bool) → List Section → List Section
others p [] = []
others p (x ∷ xs) = if p x then others p xs else x ∷ others p xs

abbrev pub Between : ℕ → ℕ → ℕ → Type 0
Between k m n = (k ≤ n) × (n < m)

Between-weaken : (k m : ℕ) (ns : List ℕ) → All (Between (suc k) m) ns → All (Between k m) ns
Between-weaken k m [] h = tt
Between-weaken k m (n ∷ ns) (h, hs) = (omega (arith, h), Between-weaken k m ns hs)

pub descending-Between :
    (p : Section → Bool) (k : ℕ) (xs : List Section) (m : ℕ)
    → k + length xs ≤ m
    → All (Between k m) (descending p k xs)
unfolding descending
descending-Between p k [] m h = tt
descending-Between p k (x ∷ xs) m h =
    let deeper = Between-weaken k m _ (descending-Between p (suc k) xs m (omega arith)) in
    elim (Bool-cases (p x)) [
      | inl e ↦ rw e (
          All-append (Between k m) (descending p (suc k) xs) (k ∷ []) deeper
            ((omega arith, omega arith), tt))
      | inr e ↦ rw e (All-append (Between k m) (descending p (suc k) xs) [] deeper tt)
    ]

not_after-digits : (k n : ℕ) → k < n → n < 10 → not_after (decimal n) (decimal k) ≡ false
unfolding not_after
not_after-digits k n h h' = rw (decimal_digit n h', decimal_digit k (omega arith)) (ground arith)

insert_line-last :
    (k : ℕ) (ns : List ℕ)
    → All (Between (suc k) 10) ns
    → insert_line (decimal k) (map decimal ns) ≡ map decimal (ns ++ (k ∷ []))
unfolding insert_line
insert_line-last k [] h = refl
insert_line-last k (n ∷ ns) (h, hs) =
    rw (not_after-digits k n (omega (arith, h.0)) h.1, if◌then◌else◌)
      (ap (◌∷◌ (decimal n)) (insert_line-last k ns hs))

pub sort_reverse-indices :
    (p : Section → Bool) (k : ℕ) (xs : List Section)
    → k + length xs ≤ 10
    → sort_reverse (map decimal (indices p k xs)) ≡ map decimal (descending p k xs)
unfolding sort_reverse indices descending
sort_reverse-indices p k [] h = refl
sort_reverse-indices p k (x ∷ xs) h =
    let ih = sort_reverse-indices p (suc k) xs (omega arith) in
    elim (Bool-cases (p x)) [
      | inl e ↦ rw e (
          ap (insert_line (decimal k)) ih
          ∙ insert_line-last k (descending p (suc k) xs)
              (descending-Between p (suc k) xs 10 (omega arith)))
      | inr e ↦ rw (e, append-nil) ih
    ]

pub loop_words-digits :
    (k : ℕ) (ns : List ℕ) → All (Between k 10) ns → loop_words (map decimal ns) ≡ map decimal ns
unfolding loop_words
loop_words-digits k [] h = refl
loop_words-digits k (n ∷ ns) (h, hs) =
    rw (decimal_digit n h.1) (ap (◌∷◌ ((48 + n) ∷ [])) (loop_words-digits k ns hs))

pub indices-free :
    (p : Section → Bool) (n k : ℕ) (before xs : List Section)
    → length before ≡ n
    → All (λ z. p z ≡ false) before
    → indices p k (before ++ xs) ≡ indices p (k + n) xs
unfolding indices
indices-free p n k [] xs e h = ap (λ m. indices p m xs) (omega (arith, e))
indices-free p n k (z ∷ before) xs e (h, hs) =
    rw (h, if◌then◌else◌)
      (indices-free p (length before) (suc k) before xs refl hs
        ∙ ap (λ m. indices p m xs) (omega (arith, e)))

pub indices-two :
    (p : Section → Bool) (k : ℕ) (x y : Section)
    → p x ≡ true
    → p y ≡ true
    → indices p k (x ∷ y ∷ []) ≡ k ∷ suc k ∷ []
unfolding indices
indices-two p k x y px py = rw (px, py) refl

pub nine_first : loop_words (sort_reverse (map decimal (9 ∷ 10 ∷ []))) ≡ map decimal (9 ∷ 10 ∷ [])
unfolding loop_words sort_reverse insert_line not_after decimal digits
nine_first = refl

pub remove_at-beyond : (n : ℕ) (xs : List Section) → length xs ≤ n → remove_at n xs ≡ xs
unfolding remove_at
remove_at-beyond n [] h = refl
remove_at-beyond zero (x ∷ xs) h = absurd (omega arith)
remove_at-beyond (suc n) (x ∷ xs) h = ap (◌∷◌ x) (remove_at-beyond n xs (omega arith))
