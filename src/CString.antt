-- ===== src/CString.antt =====
-- Texts of C as lists of byte values without the closing NUL, and the functions of <string.h>,
-- <ctype.h>, <stdio.h> and <libgen.h> that the program calls on them. A `char *` that may be NULL
-- is an `Option Bytes`.
pub mod Decimal
pub mod Laws
pub mod Tokens
pub mod Fields
use Prim.Native.Char.{code}
use Prim.Native.String.{[] as empty_text, ◌∷◌ as text_cons}
use osmud.Prelude.{
  ℕ, zero, suc, ◌+◌, ◌-◌, Bool, true, false, not, ◌&&◌, ◌||◌, Option, none, some, List, [], ◌∷◌,
  ◌++◌, String, leb, ◌==◌, if◌then◌else◌, take, drop, length,
}

abbrev pub Bytes : Type 0
Bytes = List ℕ

-- A `char *` variable: nothing was stored in it yet, or a pointer was, which may be NULL.
pub data Slot : Type 0 where
  unwritten : Slot
  written : Option Bytes → Slot

-- The bytes of a text literal; all of the program's literals are ASCII.
abbrev pub codes : String → Bytes
codes String.[] = []
codes (String.◌∷◌ c s) = code c ∷ codes s

-- `!strcmp(a, b)`
unfoldable pub str_eq : Bytes → Bytes → Bool
str_eq [] [] = true
str_eq (x ∷ xs) (y ∷ ys) = x == y && str_eq xs ys
str_eq _ _ = false

-- `strrchr(s, c)`, as the offset of the last occurrence.
unfoldable pub strrchr : ℕ → Bytes → Option ℕ
strrchr c [] = none
strrchr c (x ∷ xs) = elim (strrchr c xs) [
  | some i ↦ some (suc i)
  | none ↦ if x == c then some 0 else none
]

-- Does the byte occur?
unfoldable pub has : ℕ → Bytes → Bool
has c [] = false
has c (x ∷ xs) = x == c || has c xs

-- `toupper` after the test `islower`, in the C locale.
unfoldable pub to_upper : ℕ → ℕ
to_upper c = if leb b'a' c && leb c b'z' then c - 32 else c

-- `snprintf(buf, size, "%s", text); buf[size-1] = '\0'`: what the buffer then holds.
unfoldable pub snprintf : ℕ → Bytes → Bytes
snprintf size text = take (size - 1) text

-- What `%s` prints; the C libraries of the target print "(null)" for a NULL pointer.
unfoldable pub shown : Option Bytes → Bytes
shown none = codes "(null)"
shown (some s) = s

-- The text with the slashes at its end cut off.
unfoldable pub strip_slashes : Bytes → Bytes
strip_slashes [] = []
strip_slashes (c ∷ cs) = elim (strip_slashes cs) [
  | [] ↦ if c == b'/' then [] else c ∷ []
  | x ∷ xs ↦ c ∷ x ∷ xs
]

-- `basename(path)`: the result, and what the call leaves in `path`, since it may cut off
-- slashes in place.
unfoldable pub basename : Bytes → Bytes × Bytes
basename path = elim (strip_slashes path) [
  | [] ↦ (elim path [ [] ↦ codes "." | _ ∷ _ ↦ codes "/" ], path)
  | x ∷ xs ↦
      (elim (strrchr b'/' (x ∷ xs)) [ none ↦ x ∷ xs | some i ↦ drop (suc i) (x ∷ xs) ], x ∷ xs)
]
