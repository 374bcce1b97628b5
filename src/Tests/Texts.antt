-- ===== src/Tests/Texts.antt =====
-- The text helpers at concrete texts.
use osmud.Prelude.{true, some, ◌∷◌, ◌++◌, ◌≡◌, ◌↔◌, refl, arith, map}
use osmud.Prelude.Int.{is_zero, neg}
use osmud.CString.{codes, has, to_upper}
use osmud.Utils.{HeapText, strcmpi, replace_extension, fits}
use osmud.Utils.Laws.{
  replace_extension-fits, replace_extension-append, strcmpi_zero_iff, strcmpi-swap,
}

replace_extension-fits_example :
    (h : HeapText) × (replace_extension (some (codes "http://m/x")) (some (codes "p7s")) ≡ some h)
    × (fits h ≡ has b'.' (codes "http://m/x"))
replace_extension-fits_example = replace_extension-fits (codes "http://m/x") (codes "p7s")

replace_extension-append_run :
    replace_extension (some (codes "m.org/pi4" ++ (b'.' ∷ codes "json"))) (some (codes "p7s"))
    ≡ some (record { capacity = 18; text = codes "m.org/pi4" ++ (b'.' ∷ codes "p7s") })
unfolding has
replace_extension-append_run =
    replace_extension-append (codes "m.org/pi4") (codes "json") (codes "p7s") refl

strcmpi_zero_iff_example :
    (is_zero (strcmpi (codes "Accept") (codes "accept")) ≡ true)
    ↔ (map to_upper (codes "Accept") ≡ map to_upper (codes "accept"))
strcmpi_zero_iff_example =
    strcmpi_zero_iff (codes "Accept") (codes "accept") (omega arith) (omega arith)

strcmpi-swap_run :
    strcmpi (codes "warn") (codes "INFO") ≡ neg (strcmpi (codes "INFO") (codes "warn"))
strcmpi-swap_run = strcmpi-swap (codes "INFO") (codes "warn")
