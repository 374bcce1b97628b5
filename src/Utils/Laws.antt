-- ===== src/Utils/Laws.antt =====
-- What the text helpers of src/oms_utils.c compute.
use osmud.Prelude.{
  ℕ, ◌+◌, ◌<◌, ◌≡◌, refl, sym, ◌↔◌, ◌⊎◌, inl, inr, true, false, some, [], ◌∷◌, ◌++◌, map, arith,
  length, length-append, take-append, if◌then◌else◌, All,
}
use osmud.Prelude.Int.{ℤ, sub_ℕ, is_zero, neg, sub_ℕ-zero_iff, neg-sub_ℕ}
use osmud.CString.{Bytes, has, to_upper}
use osmud.CString.Laws.{strrchr-none, strrchr-append, last_split, LastSplit}
use osmud.Utils.{HeapText, fits, strcmpi, extension_base, replace_extension}

pub extension_base-append :
    (a b : Bytes) → has b'.' b ≡ false → extension_base (a ++ (b'.' ∷ b)) ≡ a
unfolding extension_base
extension_base-append a b h =
    rw (strrchr-append b'.' a b h, extension_base) (take-append a (b'.' ∷ b))

pub extension_base-none : (s : Bytes) → has b'.' s ≡ false → extension_base s ≡ s
unfolding extension_base
extension_base-none s h = rw (strrchr-none b'.' s h, extension_base)

-- The bytes of a C string are not 0.
abbrev pub IsText : Bytes → Type 0
IsText s = All (λ c. 0 < c) s

to_upper-pos : (c : ℕ) → 0 < c → 0 < to_upper c
unfolding to_upper
to_upper-pos c h = ground arith

-- one round of the loop of `strcmpi`
round-swap :
    (a b : ℕ) (r r' : ℤ)
    → r' ≡ neg r
    → (if is_zero (sub_ℕ b a) then r' else sub_ℕ b a)
      ≡ neg (if is_zero (sub_ℕ a b) then r else sub_ℕ a b)
round-swap a b r r' h = ground arith

round-zero :
    (a b : ℕ) (r : ℤ) (xs ys : Bytes)
    → (is_zero r ≡ true) ↔ (xs ≡ ys)
    → (is_zero (if is_zero (sub_ℕ a b) then r else sub_ℕ a b) ≡ true) ↔ (a ∷ xs ≡ b ∷ ys)
round-zero a b r xs ys h = ground arith

-- Swapping the arguments of `strcmpi` negates its result.
pub strcmpi-swap : (a b : Bytes) → strcmpi b a ≡ neg (strcmpi a b)
unfolding strcmpi
strcmpi-swap [] [] = refl
strcmpi-swap [] (y ∷ ys) = sym (neg-sub_ℕ _ _)
strcmpi-swap (x ∷ xs) [] = sym (neg-sub_ℕ _ _)
strcmpi-swap (x ∷ xs) (y ∷ ys) =
    round-swap (to_upper x) (to_upper y) (strcmpi xs ys) (strcmpi ys xs) (strcmpi-swap xs ys)

-- `strcmpi` returns 0 for exactly the C strings that agree after `toupper`.
pub strcmpi_zero_iff :
    (a b : Bytes)
    → IsText a
    → IsText b
    → (is_zero (strcmpi a b) ≡ true) ↔ (map to_upper a ≡ map to_upper b)
unfolding strcmpi
strcmpi_zero_iff [] [] ha hb = (λ _. refl, λ _. refl)
strcmpi_zero_iff [] (y ∷ ys) ha hb =
    ground (arith, to_upper-pos y hb.0, sub_ℕ-zero_iff 0 (to_upper y))
strcmpi_zero_iff (x ∷ xs) [] ha hb =
    ground (arith, to_upper-pos x ha.0, sub_ℕ-zero_iff (to_upper x) 0)
strcmpi_zero_iff (x ∷ xs) (y ∷ ys) ha hb = round-zero _ _ _ _ _ (strcmpi_zero_iff xs ys ha.1 hb.1)

-- A text with an extension: everything behind its last "." is replaced.
pub replace_extension-append :
    (a b ext : Bytes)
    → has b'.' b ≡ false
    → replace_extension (some (a ++ (b'.' ∷ b))) (some ext)
      ≡ some (record {
        capacity = length (a ++ (b'.' ∷ b)) + length ext + 1;
        text = a ++ (b'.' ∷ ext);
      })
unfolding replace_extension
replace_extension-append a b ext h = rw (extension_base-append a b h)

has-append : (c : ℕ) (a b : Bytes) → has c (a ++ (c ∷ b)) ≡ true
unfolding has
has-append c [] b = ground arith
has-append c (x ∷ xs) b = ground (arith, has-append c xs b)

-- What `replaceExtension` prints fits its block exactly when the URL has a ".".
pub replace_extension-fits :
    (url ext : Bytes)
    → (h : HeapText) × (replace_extension (some url) (some ext) ≡ some h) × (fits h ≡ has b'.' url)
unfolding replace_extension
replace_extension-fits url ext = (block, refl, go (last_split b'.' url))
  where
    block : HeapText
    block = record {
      capacity = length url + length ext + 1;
      text = extension_base url ++ (b'.' ∷ ext);
    }

    go : (has b'.' url ≡ false) ⊎ LastSplit b'.' url → fits block ≡ has b'.' url
    go (inl h) = rw (h, extension_base-none url h) (ground (arith, length-append url (b'.' ∷ ext)))
    go (inr l) =
        rw
          (
            l.splits,
            extension_base-append l.before l.after l.last,
            has-append b'.' l.before l.after,
          )
          (ground
            (arith, length-append l.before (b'.' ∷ ext), length-append l.before (b'.' ∷ l.after)))
