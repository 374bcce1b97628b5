-- ===== src/Logging.antt =====
-- src/oms_logging.c and src/oms_messages.h: severities, subsystems and the level of the log.
pub mod Levels
pub mod Entries
pub mod Stamps
use osmud.Prelude.{ℕ, Bool, Option, none, some, if◌then◌else◌, leb}
use osmud.CString.{Bytes, codes}
use osmud.OpenWrt.{same_ignoring_case}

-- `OMS_SEVERITY_CLASSES`
pub data SeverityClass : Type 0 where
  oms_crit oms_error oms_warn oms_info oms_debug : SeverityClass

abbrev pub severity_number : SeverityClass → ℕ
severity_number oms_crit = 1
severity_number oms_error = 2
severity_number oms_warn = 3
severity_number oms_info = 4
severity_number oms_debug = 5

unfoldable pub get_severity_text : SeverityClass → Bytes
get_severity_text oms_info = codes "INFO"
get_severity_text oms_warn = codes "WARNING"
get_severity_text oms_error = codes "ERROR"
get_severity_text oms_crit = codes "CRITICAL"
get_severity_text oms_debug = codes "DEBUG"

unfoldable pub get_log_level_from_arg : Option Bytes → SeverityClass
get_log_level_from_arg none = oms_info
get_log_level_from_arg (some log_level) =
    if same_ignoring_case log_level (codes "INFO")
    then oms_info
    else if same_ignoring_case log_level (codes "WARN")
    then oms_warn
    else if same_ignoring_case log_level (codes "ERROR")
    then oms_error
    else if same_ignoring_case log_level (codes "CRITICAL")
    then oms_crit
    else if same_ignoring_case log_level (codes "DEBUG")
    then oms_debug
    else oms_info

-- the test of `logOmsGeneralMessage` and `logOmsMessage`
unfoldable pub is_logged : SeverityClass → SeverityClass → Bool
is_logged severity oms_log_level = leb (severity_number severity) (severity_number oms_log_level)
