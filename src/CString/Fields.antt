-- ===== src/CString/Fields.antt =====
-- Texts that are built of fields: how the division into words reads them back.
use mathlib.Core.List.{append-nil, append_assoc}
use osmud.Prelude.{
  ◌&&◌, not, arith, ℕ, ◌≡◌, ◌≢◌, refl, ◌∙◌, Bool, true, false, [], ◌∷◌, ◌++◌, All, if◌then◌else◌,
}
use osmud.CString.{Bytes}
use osmud.CString.Tokens.{words, words_from}

module _ (delim : ℕ → Bool) where
  -- a field of a line: not empty, and with no delimiter
  pub record IsField (f : Bytes) : Type 0 where
    pub free : All (λ c. delim c ≡ false) f
    pub ne_nil : f ≢ []

  -- Is the text such a field?
  abbrev pub is_field : Bytes → Bool
  is_field [] = false
  is_field (c ∷ []) = not (delim c)
  is_field (c ∷ d ∷ cs) = not (delim c) && is_field (d ∷ cs)

  free_of_is_field : (f : Bytes) → is_field f ≡ true → All (λ c. delim c ≡ false) f
  free_of_is_field [] h = tt
  free_of_is_field (c ∷ []) h = (ground arith, tt)
  free_of_is_field (c ∷ d ∷ cs) h = (ground arith, free_of_is_field (d ∷ cs) (ground arith))

  pub IsField-of_is_field : (f : Bytes) → is_field f ≡ true → IsField f
  IsField-of_is_field [] h = cc
  IsField-of_is_field (c ∷ cs) h = record { free = free_of_is_field (c ∷ cs) h; ne_nil = λ e. cc e }

  pub words_from-free :
      (f w rest : Bytes)
      → All (λ c. delim c ≡ false) f
      → words_from delim w (f ++ rest) ≡ words_from delim (w ++ f) rest
  unfolding words_from
  words_from-free [] w rest h = rw append-nil
  words_from-free (c ∷ cs) w rest h =
      rw (h.0, if◌then◌else◌) (words_from-free cs (w ++ (c ∷ [])) rest h.1 ∙ rw append_assoc)

  -- A field and the delimiter behind it are the first word.
  pub words-field :
      (f : Bytes) (d : ℕ) (rest : Bytes)
      → IsField f
      → delim d ≡ true
      → words delim (f ++ (d ∷ rest)) ≡ f ∷ words delim rest
  unfolding words words_from
  words-field [] d rest h hd = absurd (h.ne_nil refl)
  words-field (c ∷ cs) d rest h hd =
      words_from-free (c ∷ cs) [] (d ∷ rest) h.free ∙ rw (hd, if◌then◌else◌)
