-- ===== src/CString/Laws.antt =====
-- Laws of the C text functions: equality, the last occurrence of a byte, bounded printing.
use osmud.Prelude.{
  All, ℕ, ◌-◌, ◌<◌, ◌≡◌, refl, ap, ◌⊎◌, inl, inr, ◌↔◌, Bool, true, false, none, some, [], ◌∷◌, ◌++◌,
  arith, ==_iff, ◌==◌, length, take_all, length-take,
}
use osmud.CString.{Bytes, str_eq, strrchr, has, snprintf}

pub str_eq_iff : (a b : Bytes) → (str_eq a b ≡ true) ↔ (a ≡ b)
unfolding str_eq
str_eq_iff [] [] = (λ _. refl, λ _. refl)
str_eq_iff (x ∷ xs) (y ∷ ys) = ground (arith, str_eq_iff xs ys)
str_eq_iff _ _ = ground arith

pub str_eq_refl : (a : Bytes) → str_eq a a ≡ true
str_eq_refl a = (str_eq_iff a a).1 refl

pub strrchr-none : (c : ℕ) (s : Bytes) → has c s ≡ false → strrchr c s ≡ none
unfolding has strrchr
strrchr-none c [] h = refl
strrchr-none c (x ∷ xs) h = ground (arith, strrchr-none c xs)

pub strrchr-append :
    (c : ℕ) (a b : Bytes) → has c b ≡ false → strrchr c (a ++ (c ∷ b)) ≡ some (length a)
unfolding strrchr
strrchr-append c [] b h = ground (arith, strrchr-none c b h)
strrchr-append c (x ∷ xs) b h = rw (strrchr-append c xs b h, strrchr)

-- Where a text splits: it has no `c`, or its last `c` stands between `before` and `after`.
pub record LastSplit (c : ℕ) (s : Bytes) : Type 0 where
  pub before : Bytes
  pub after : Bytes
  pub splits : s ≡ before ++ (c ∷ after)
  pub last : has c after ≡ false

pub last_split : (c : ℕ) (s : Bytes) → (has c s ≡ false) ⊎ LastSplit c s
unfolding has
last_split c [] = inl refl
last_split c (x ∷ xs) = go (last_split c xs) (x == c) refl
  where
    go :
        (has c xs ≡ false) ⊎ LastSplit c xs
        → (b : Bool) → (x == c) ≡ b
        → (has c (x ∷ xs) ≡ false) ⊎ LastSplit c (x ∷ xs)
    go (inl h) true e =
        inr (record {
          before = [];
          after = xs;
          splits = ap (λ y. y ∷ xs) ((==_iff x c).0 e);
          last = h;
        })
    go (inl h) false e = inl (ground arith)
    go (inr l) b e = inr (record {
      before = x ∷ l.before;
      after = l.after;
      splits = ap (◌∷◌ x) l.splits;
      last = l.last;
    })

pub length-snprintf : (size : ℕ) (text : Bytes) → 0 < size → length (snprintf size text) < size
unfolding snprintf
length-snprintf size text h = omega (arith, length-take (size - 1) text)

pub snprintf_fits : (size : ℕ) (text : Bytes) → length text < size → snprintf size text ≡ text
unfolding snprintf
snprintf_fits size text h = take_all (size - 1) text (omega arith)

-- A byte that a text does not have differs from each of its bytes.
pub All-has : (c : ℕ) (s : Bytes) → has c s ≡ false → All (λ x. (x == c) ≡ false) s
unfolding has
All-has c [] h = tt
All-has c (x ∷ xs) h = (ground (arith, h), All-has c xs (ground (arith, h)))
