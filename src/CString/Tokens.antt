-- ===== src/CString/Tokens.antt =====
-- `strtok`, and the division of a text into the tokens that repeated calls return.
use osmud.Prelude.{
  ℕ, ◌≡◌, refl, ◌∙◌, inl, inr, Bool, false, Option, none, some, List, [], ◌∷◌, ◌++◌, arith,
  if◌then◌else◌, Bool-cases,
}
use mathlib.Core.List.{append-nil, append_assoc}
use osmud.CString.{Bytes}

-- Skip the bytes that are delimiters (`strspn`).
unfoldable pub skip : (ℕ → Bool) → Bytes → Bytes
skip delim [] = []
skip delim (c ∷ cs) = let rest = skip delim cs in if delim c then rest else c ∷ cs

-- The bytes up to the first delimiter, and what stands behind that delimiter, which `strtok`
-- overwrites by the NUL of the token.
unfoldable pub split : (ℕ → Bool) → Bytes → Bytes × Bytes
split delim [] = ([], [])
split delim (c ∷ cs) =
    let (token, rest) = split delim cs in if delim c then ([], cs) else (c ∷ token, rest)

-- One call of `strtok` on the saved position: the token, or NULL at the end, and the new position.
token_at : (ℕ → Bool) → Bytes → Option (Bytes × Bytes)
token_at delim [] = none
token_at delim (c ∷ cs) = some (split delim (c ∷ cs))

unfoldable pub strtok : (ℕ → Bool) → Bytes → Option (Bytes × Bytes)
unfolding skip split token_at
strtok delim s = token_at delim (skip delim s)

-- The tokens of a text, described with no saved position: the longest runs without a delimiter.
-- `word` holds the bytes of the run that is read.
unfoldable pub flush : Bytes → List Bytes → List Bytes
flush [] ws = ws
flush (c ∷ cs) ws = (c ∷ cs) ∷ ws

unfoldable pub words_from : (ℕ → Bool) → Bytes → Bytes → List Bytes
unfolding flush
words_from delim word [] = flush word []
words_from delim word (c ∷ cs) =
    let rest = words_from delim (if delim c then [] else word ++ (c ∷ [])) cs in
    if delim c then flush word rest else rest

unfoldable pub words : (ℕ → Bool) → Bytes → List Bytes
unfolding words_from
words delim = words_from delim []

module _ (delim : ℕ → Bool) where
  words-skip : (s : Bytes) → words delim s ≡ words delim (skip delim s)
  unfolding words skip
  words-skip [] = refl
  words-skip (c ∷ cs) = ground (arith, words-skip cs)

  flush-snoc :
      (w : Bytes) (c : ℕ) (ws : List Bytes) → flush (w ++ (c ∷ [])) ws ≡ (w ++ (c ∷ [])) ∷ ws
  unfolding flush
  flush-snoc [] c ws = refl
  flush-snoc (x ∷ xs) c ws = refl

  words_from-split :
      (s w : Bytes)
      → words_from delim w s ≡ flush (w ++ (split delim s).0) (words delim (split delim s).1)
  unfolding words split
  words_from-split [] w = rw append-nil
  words_from-split (c ∷ cs) w = elim (Bool-cases (delim c)) [
    | inl e ↦ rw (e, if◌then◌else◌) (rw append-nil)
    | inr e ↦ rw (e, if◌then◌else◌) (words_from-split cs (w ++ (c ∷ [])) ∙ rw append_assoc)
  ]

  -- what is left behind the delimiters does not begin with one
  skip-head : (s : Bytes) {c : ℕ} {cs : Bytes} → skip delim s ≡ c ∷ cs → delim c ≡ false
  unfolding skip
  skip-head [] h = cc
  skip-head (x ∷ xs) {c} {cs} h = ground (arith, skip-head xs {c = c} {cs = cs})

  words-token :
      (c : ℕ) (cs : Bytes)
      → delim c ≡ false
      → words delim (c ∷ cs) ≡ (split delim (c ∷ cs)).0 ∷ words delim (split delim (c ∷ cs)).1
  unfolding words words_from split flush
  words-token c cs h = words_from-split (c ∷ cs) [] ∙ ground arith

  abbrev pub Continues : Option (Bytes × Bytes) → List Bytes → Type 0
  Continues none ws = ws ≡ []
  Continues (some (t, rest)) ws = ws ≡ t ∷ words delim rest

  token_at-Continues :
      (s k : Bytes) → skip delim s ≡ k → Continues (token_at delim k) (words delim k)
  unfolding token_at
  token_at-Continues s [] e = unfold words in refl
  token_at-Continues s (c ∷ cs) e = words-token c cs (skip-head s e)

  -- A call of `strtok` returns the first word, and the next calls return the others.
  pub strtok-Continues : (s : Bytes) → Continues (strtok delim s) (words delim s)
  unfolding strtok
  strtok-Continues s = rw words-skip (token_at-Continues s (skip delim s) refl)
