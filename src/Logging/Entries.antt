-- ===== src/Logging/Entries.antt =====
-- src/oms_logging.c: the lines of the log, and the table of its messages.
use osmud.Prelude.{
  suc, zero, ◌>>=◌, ℕ, ◌+◌, ◌-◌, Option, none, some, List, [], ◌∷◌, ◌++◌, Outcome, ok, fault,
  out_of_bounds, if◌then◌else◌, length, replicate, set,
}
use osmud.CString.{Bytes, codes, shown}
use osmud.CString.Decimal.{decimal}
use osmud.Logging.{SeverityClass, get_severity_text, is_logged}

-- `OMS_SUBSYSTEM_CLASSES`
pub data SubsystemClass : Type 0 where
  oms_subsys_general oms_subsys_controller oms_subsys_communication : SubsystemClass
  oms_subsys_mud_file oms_subsys_device_interface : SubsystemClass

unfoldable pub get_subsystem_text : SubsystemClass → Bytes
get_subsystem_text oms_subsys_general = codes "GENERAL"
get_subsystem_text oms_subsys_controller = codes "CONTROLLER"
get_subsystem_text oms_subsys_communication = codes "COMMUNICATION"
get_subsystem_text oms_subsys_mud_file = codes "MUD_FILE_OPERATIONS"
get_subsystem_text oms_subsys_device_interface = codes "DEVICE_INTERFACE"

-- the fields of `struct tm` that are printed; the months count from 0
pub record Tm : Type 0 where
  pub tm_year : ℕ
  pub tm_mon : ℕ
  pub tm_mday : ℕ
  pub tm_hour : ℕ
  pub tm_min : ℕ
  pub tm_sec : ℕ

-- `%02d` and `%04d`: zeros before the digits, up to the width
unfoldable pub padded : ℕ → ℕ → Bytes
padded width n = replicate (width - length (decimal n)) b'0' ++ decimal n

unfoldable pub time_stamp : Tm → Bytes
unfolding padded
time_stamp tm =
    padded 4 (tm.tm_year + 1900)
    ++ codes "-"
    ++ padded 2 tm.tm_mon
    ++ codes "-"
    ++ padded 2 tm.tm_mday
    ++ codes " "
    ++ padded 2 tm.tm_hour
    ++ codes ":"
    ++ padded 2 tm.tm_min
    ++ codes ":"
    ++ padded 2 tm.tm_sec

-- the line that is printed
unfoldable pub log_line : Tm → SeverityClass → SubsystemClass → Option Bytes → Bytes
unfolding time_stamp
log_line tm severity subsystem text =
    time_stamp tm
    ++ codes " "
    ++ get_severity_text severity
    ++ codes "::"
    ++ get_subsystem_text subsystem
    ++ codes "::"
    ++ shown text
    ++ codes "\n"

-- What is written to the log file, by the level of the log.
unfoldable pub log_oms_general_message :
    SeverityClass → Tm → SeverityClass → SubsystemClass → Option Bytes → Bytes
unfolding log_line
log_oms_general_message oms_log_level tm severity subsystem text =
    if is_logged severity oms_log_level then log_line tm severity subsystem text else []

-- `omsLogMessages`
abbrev pub OmsLogMessages : Type 0
OmsLogMessages = List (Option Bytes)

abbrev pub cant_read_file : ℕ
cant_read_file = 1

abbrev pub cant_write_file : ℕ
cant_write_file = 2

abbrev pub out_of_memory : ℕ
out_of_memory = 3

unfoldable pub initialize_message_logging : OmsLogMessages
initialize_message_logging =
    set
      (set (set (replicate 600 none) cant_read_file (some (codes "Cannot read file")))
        cant_write_file (some (codes "Cannot write file")))
      out_of_memory (some (codes "Out of memory"))

-- A read outside the table is out of bounds.
unfoldable pub get_message : OmsLogMessages → ℕ → Outcome (Option Bytes)
get_message [] msg_id = fault out_of_bounds
get_message (m ∷ ms) zero = ok m
get_message (m ∷ ms) (suc msg_id) = get_message ms msg_id

unfoldable pub log_oms_message :
    OmsLogMessages → SeverityClass → Tm → SeverityClass → SubsystemClass → ℕ → Outcome Bytes
unfolding log_line get_message
log_oms_message messages oms_log_level tm severity subsystem msg_id =
    let message = get_message messages msg_id in
    if is_logged severity oms_log_level
    then (message >>= λ text. ok (log_line tm severity subsystem text))
    else ok []
