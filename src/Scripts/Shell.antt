-- ===== src/Scripts/Shell.antt =====
-- How the shell reads the text of a command of src/openwrt/openwrt.c: the words of a simple command
-- that has no character with a meaning of its own.
use mathlib.Core.List.{append-nil}
use osmud.Prelude.{
  sym, ℕ, Bool, true, false, not, ◌||◌, List, [], ◌∷◌, ◌++◌, ◌≡◌, refl, ap, ◌∙◌, arith, All,
  if◌then◌else◌, leb, ◌==◌, length,
}
use osmud.CString.{Bytes, codes, has}
use osmud.CString.Tokens.{words, words_from}
use osmud.CString.Fields.{IsField, words-field, words_from-free}

-- the blanks between words
abbrev pub is_blank : ℕ → Bool
is_blank c = c == b' ' || c == b'\t'

-- Does an unquoted byte stand for something else than itself? Parentheses are apart.
abbrev pub is_special : ℕ → Bool
is_special c = has c (codes "|&;<>$`\\\"'*?[]#~!{}\n")

abbrev pub is_paren : ℕ → Bool
is_paren c = c == b'(' || c == b')'

unfoldable pub any_byte : (ℕ → Bool) → Bytes → Bool
any_byte p [] = false
any_byte p (c ∷ cs) = p c || any_byte p cs

-- what stands before the first parenthesis
unfoldable pub before_paren : Bytes → Bytes
before_paren [] = []
before_paren (c ∷ cs) = if is_paren c then [] else c ∷ before_paren cs

-- How the shell takes a text.
pub data Reading : Type 0 where
  -- a simple command of these words
  simple : List Bytes → Reading
  -- A parenthesis behind two words or more is a syntax error: nothing of the text is run.
  syntax_error : Reading
  -- a text that is not described here
  special : Reading

unfoldable pub read_command : Bytes → Reading
unfolding any_byte before_paren words
read_command text =
    if any_byte is_special text
    then special
    else if not (any_byte is_paren text)
    then simple (words is_blank text)
    else if leb 2 (length (words is_blank (before_paren text)))
    then syntax_error
    else special

-- A text that is one word of a command and stands for itself.
abbrev pub is_word : ℕ → Bool
is_word c = not (is_blank c || (is_special c || is_paren c))

pub record IsWord (w : Bytes) : Type 0 where
  pub field : IsField is_blank w
  pub not_special : any_byte is_special w ≡ false
  pub no_paren : any_byte is_paren w ≡ false

-- A command of a script and its options, each a letter with a value: ` -s lan -d wan`.
abbrev pub command_text : Bytes → List (ℕ × Bytes) → Bytes
command_text script [] = script
command_text script ((c, v) ∷ options) = script ++ (b' ' ∷ b'-' ∷ c ∷ b' ' ∷ command_text v options)

-- the arguments that the script gets
abbrev pub arguments : List (ℕ × Bytes) → List Bytes
arguments [] = []
arguments ((c, v) ∷ options) = (b'-' ∷ c ∷ []) ∷ v ∷ arguments options

-- An option whose letter and value are read as they are written.
abbrev pub IsOption : ℕ × Bytes → Type 0
IsOption (c, v) = (is_word c ≡ true) × IsWord v

pub any_byte-append :
    (p : ℕ → Bool) (a b : Bytes)
    → any_byte p a ≡ false
    → any_byte p b ≡ false
    → any_byte p (a ++ b) ≡ false
unfolding any_byte
any_byte-append p [] b ha hb = hb
any_byte-append p (c ∷ cs) b ha hb = ground (arith, any_byte-append p cs b, ha, hb)

pub words-word : (w : Bytes) → IsField is_blank w → words is_blank w ≡ w ∷ []
unfolding words words_from
words-word [] f = absurd (f.ne_nil refl)
words-word (c ∷ cs) f =
    ap (words is_blank) (sym (append-nil (c ∷ cs))) ∙ words_from-free is_blank (c ∷ cs) [] [] f.free

letter-IsField : (c : ℕ) → is_word c ≡ true → IsField is_blank (b'-' ∷ c ∷ [])
letter-IsField c h = record { free = (refl, (ground arith, tt)); ne_nil = λ e. cc e }

words-command_text :
    (script : Bytes) (options : List (ℕ × Bytes))
    → IsField is_blank script
    → All IsOption options
    → words is_blank (command_text script options) ≡ script ∷ arguments options
words-command_text script [] h hs = words-word script h
words-command_text script ((c, v) ∷ options) h ((hc, hv), hs) =
    words-field is_blank script b' ' (b'-' ∷ c ∷ b' ' ∷ command_text v options) h refl
    ∙ ap (◌∷◌ script) (
        words-field is_blank (b'-' ∷ c ∷ []) b' ' (command_text v options) (letter-IsField c hc)
          refl
        ∙ ap (◌∷◌ (b'-' ∷ c ∷ [])) (words-command_text v options hv.field hs))

any_byte-command_text :
    (p : ℕ → Bool)
    → p b' ' ≡ false
    → p b'-' ≡ false
    → ((c : ℕ) → is_word c ≡ true → p c ≡ false)
    → ((w : Bytes) → IsWord w → any_byte p w ≡ false)
    → (script : Bytes) (options : List (ℕ × Bytes)) → IsWord script
    → All IsOption options
    → any_byte p (command_text script options) ≡ false
unfolding any_byte
any_byte-command_text p blank dash letters free script [] h hs = free script h
any_byte-command_text p blank dash letters free script ((c, v) ∷ options) h ((hc, hv), hs) =
    any_byte-append p script _ (free script h) (
      rw (blank, dash, letters c hc)
        (any_byte-command_text p blank dash letters free v options hv hs))

letter-special : (c : ℕ) → is_word c ≡ true → is_special c ≡ false
letter-special c h = ground (arith, h)

letter-paren : (c : ℕ) → is_word c ≡ true → is_paren c ≡ false
letter-paren c h = ground (arith, h)

-- A command with options reads as the script and its arguments.
pub read_command-command_text :
    (script : Bytes) (options : List (ℕ × Bytes))
    → IsWord script
    → All IsOption options
    → read_command (command_text script options) ≡ simple (script ∷ arguments options)
unfolding read_command has
read_command-command_text script options h hs =
    rw
      (
        any_byte-command_text is_special refl refl letter-special (λ w h. h.not_special) script
            options h hs,
        any_byte-command_text is_paren refl refl letter-paren (λ w h. h.no_paren) script options h
            hs,
        words-command_text script options h.field hs,
      )
      refl
