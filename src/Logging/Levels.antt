-- ===== src/Logging/Levels.antt =====
-- The level that an argument of src/osmud.c sets, and what is logged at it.
use osmud.Prelude.{true, some, map, ◌≡◌, refl, ap, ◌∙◌}
use osmud.CString.{Bytes, codes, to_upper}
use osmud.Utils.{strcmpi}
use osmud.OpenWrt.Names.{strcmpi_case}
use osmud.Logging.{
  SeverityClass, oms_crit, oms_error, oms_warn, oms_info, oms_debug, get_severity_text,
  get_log_level_from_arg, is_logged,
}

get_log_level_from_arg_case :
    (a b : Bytes)
    → map to_upper a ≡ map to_upper b
    → get_log_level_from_arg (some a) ≡ get_log_level_from_arg (some b)
unfolding get_log_level_from_arg
get_log_level_from_arg_case a b h =
    rw
      (
        strcmpi_case a b (codes "INFO") h,
        strcmpi_case a b (codes "WARN") h,
        strcmpi_case a b (codes "ERROR") h,
        strcmpi_case a b (codes "CRITICAL") h,
        strcmpi_case a b (codes "DEBUG") h,
      )
      refl

-- The level whose text the log prints, but oms_info in place of oms_warn.
abbrev pub understood : SeverityClass → SeverityClass
understood oms_warn = oms_info
understood s = s

understood_text :
    (s : SeverityClass) → get_log_level_from_arg (some (get_severity_text s)) ≡ understood s
unfolding get_log_level_from_arg get_severity_text strcmpi
understood_text oms_crit = refl
understood_text oms_error = refl
understood_text oms_warn = refl
understood_text oms_info = refl
understood_text oms_debug = refl

is_logged_same : (s : SeverityClass) → is_logged s (understood s) ≡ true
unfolding is_logged
is_logged_same oms_crit = refl
is_logged_same oms_error = refl
is_logged_same oms_warn = refl
is_logged_same oms_info = refl
is_logged_same oms_debug = refl

-- The text that the log prints for a severity sets, in any case, the level of that severity, and
-- the text of a warning sets the level of an information. Messages of the severity are logged
-- then.
pub get_log_level_from_arg-get_severity_text :
    (s : SeverityClass) (arg : Bytes)
    → map to_upper arg ≡ map to_upper (get_severity_text s)
    → (get_log_level_from_arg (some arg) ≡ understood s)
      × (is_logged s (get_log_level_from_arg (some arg)) ≡ true)
get_log_level_from_arg-get_severity_text s arg h =
    let e = get_log_level_from_arg_case arg (get_severity_text s) h ∙ understood_text s in
    (e, ap (is_logged s) e ∙ is_logged_same s)
