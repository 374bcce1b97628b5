-- ===== src/Scripts/Getopts.antt =====
-- `getopts` in the loops of the scripts, and the variables that the loops set.
use osmud.Prelude.{
  ◌∙◌, ℕ, Bool, true, false, not, ◌&&◌, ◌||◌, Option, none, some, List, [], ◌∷◌, ◌≡◌, refl, ap, All,
  if◌then◌else◌, ◌==◌, arith,
}
use osmud.CString.{Bytes}
use osmud.Scripts.Shell.{arguments}

-- Does the letter take a value: is it followed by `:` in the string of options?
unfoldable pub takes_value : Bytes → ℕ → Bool
takes_value [] c = false
takes_value (x ∷ []) c = false
takes_value (x ∷ y ∷ optstring) c =
    (x == c && (y == b':' && not (c == b':'))) || takes_value (y ∷ optstring) c

-- What a word is to `getopts`.
pub data OptionWord : Type 0 where
  -- no option: the loop ends
  operand : OptionWord
  -- `-c` alone
  letter : ℕ → OptionWord
  -- `-c` with more behind it
  attached : ℕ → Bytes → OptionWord

unfoldable pub option_word : Bytes → OptionWord
option_word [] = operand
option_word (d ∷ []) = operand
option_word (d ∷ c ∷ []) = if d == b'-' then (if c == b'-' then operand else letter c) else operand
option_word (d ∷ c ∷ x ∷ xs) = if d == b'-' then attached c (x ∷ xs) else operand

-- An option before those that follow.
abbrev pub and_then : ℕ → Bytes → Option (List (ℕ × Bytes)) → Option (List (ℕ × Bytes))
and_then c v none = none
and_then c v (some options) = some ((c, v) ∷ options)

-- The letters with their values in the order of the loop. It is `none` where `usage` is called, which
-- the scripts do for `-h`, the only letter without a value, for another letter, and for a value that
-- is missing.
unfoldable pub getopts : Bytes → List Bytes → Option (List (ℕ × Bytes))
getopts optstring [] = some []
getopts optstring (word ∷ []) = elim (option_word word) [
  | operand ↦ some []
  | letter c ↦ none
  | attached c v ↦ if takes_value optstring c then some ((c, v) ∷ []) else none
]
getopts optstring (word ∷ next ∷ more) = elim (option_word word) [
  | operand ↦ some []
  | letter c ↦ elim (takes_value optstring c) [
    | true ↦ and_then c next (getopts optstring more)
    | false ↦ none
  ]
  | attached c v ↦ elim (takes_value optstring c) [
    | true ↦ and_then c v (getopts optstring (next ∷ more))
    | false ↦ none
  ]
]

-- the value of a variable that held `v`, after the loop
unfoldable pub set_from : Bytes → ℕ → List (ℕ × Bytes) → Bytes
set_from v c [] = v
set_from v c ((d, w) ∷ more) = set_from (if d == c then w else v) c more

-- The value of the variable that the loop sets for a letter: the last one given, else empty.
abbrev pub variable : ℕ → List (ℕ × Bytes) → Bytes
variable c options = set_from [] c options

-- `[[ -z "${X/ //}" ]]`: the first blank of the value becomes a slash, so only the empty value is
-- empty.
unfoldable pub slash_for_blank : Bytes → Bytes
slash_for_blank [] = []
slash_for_blank (c ∷ cs) = if c == b' ' then b'/' ∷ cs else c ∷ slash_for_blank cs

abbrev pub is_nil : Bytes → Bool
is_nil [] = true
is_nil (c ∷ cs) = false

unfoldable pub is_missing : Bytes → Bool
unfolding slash_for_blank
is_missing v = is_nil (slash_for_blank v)

-- A letter that takes a value.
abbrev pub IsGiven : Bytes → ℕ × Bytes → Type 0
IsGiven optstring (c, v) = (takes_value optstring c ≡ true) × ((c == b'-') ≡ false)

getopts-letter :
    (optstring : Bytes) (c : ℕ) (v : Bytes) (more : List Bytes)
    → takes_value optstring c ≡ true
    → (c == b'-') ≡ false
    → getopts optstring ((b'-' ∷ c ∷ []) ∷ v ∷ more) ≡ and_then c v (getopts optstring more)
unfolding getopts option_word
getopts-letter optstring c v more takes letter_c =
    rw (getopts, option_word, letter_c, if◌then◌else◌) (rw takes refl)

-- `getopts` gives the options that a command was written with.
pub getopts-arguments :
    (optstring : Bytes) (options : List (ℕ × Bytes))
    → All (IsGiven optstring) options
    → getopts optstring (arguments options) ≡ some options
unfolding getopts
getopts-arguments optstring [] h = refl
getopts-arguments optstring ((c, v) ∷ options) ((takes, letter_c), h) =
    getopts-letter optstring c v (arguments options) takes letter_c
    ∙ ap (and_then c v) (getopts-arguments optstring options h)

pub is_missing-cons : (c : ℕ) (cs : Bytes) → is_missing (c ∷ cs) ≡ false
unfolding is_missing slash_for_blank
is_missing-cons c cs = ground arith
