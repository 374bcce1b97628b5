-- ===== src/Utils.antt =====
-- src/oms_utils.c: the text helpers. Memory from `safe_malloc` is taken to be there (the code goes on
-- with NULL where it is not), and its size stands beside the text that is written to it.
pub mod Laws
pub mod Paths
pub mod Folders
pub mod Processes
use osmud.Prelude.{
  ℕ, ◌+◌, Option, none, some, List, [], ◌∷◌, ◌++◌, ltb, if◌then◌else◌, length, take, Bool,
}
use osmud.Prelude.Int.{ℤ, sub_ℕ, is_zero}
use osmud.CString.{Bytes, strrchr, to_upper}

-- A text printed to a block of `capacity` bytes.
pub record HeapText : Type 0 where
  pub capacity : ℕ
  pub text : Bytes

-- Do the text and its NUL lie inside the block?
abbrev pub fits : HeapText → Bool
fits h = ltb (length h.text) h.capacity

unfoldable pub copystring : Option Bytes → Option Bytes
copystring none = none
copystring (some s) = some s

-- The upper-case byte at the position reached, 0 behind the end.
first_upper : Bytes → ℕ
first_upper [] = 0
first_upper (c ∷ _) = to_upper c

unfoldable pub strcmpi : Bytes → Bytes → ℤ
unfolding to_upper first_upper
strcmpi (x ∷ xs) (y ∷ ys) =
    let rest = strcmpi xs ys in
    let diff = sub_ℕ (to_upper x) (to_upper y) in if is_zero diff then rest else diff
strcmpi s1 s2 = sub_ℕ (first_upper s1) (first_upper s2)

-- `sep` is 0 where no path separator counts.
unfoldable pub remove_ext : Option Bytes → ℕ → ℕ → Option Bytes
unfolding strrchr
remove_ext none dot sep = none
remove_ext (some mystr) dot sep =
    let lastsep : Option ℕ = if ltb 0 sep then strrchr sep mystr else none in
    elim (strrchr dot mystr) [
      | none ↦ some mystr
      | some lastdot ↦ elim lastsep [
        | none ↦ some (take lastdot mystr)
        | some s ↦ some (if ltb s lastdot then take lastdot mystr else mystr)
      ]
    ]

-- The text up to its last ".", or all of it.
unfoldable pub extension_base : Bytes → Bytes
unfolding strrchr
extension_base file_url = elim (strrchr b'.' file_url) [
  | none ↦ file_url
  | some lastdot ↦ take lastdot file_url
]

unfoldable pub replace_extension : Option Bytes → Option Bytes → Option HeapText
unfolding extension_base
replace_extension none new_extension = none
replace_extension (some file_url) none = none
replace_extension (some file_url) (some new_extension) = some (record {
  capacity = length file_url + length new_extension + 1;
  text = extension_base file_url ++ (b'.' ∷ new_extension);
})
