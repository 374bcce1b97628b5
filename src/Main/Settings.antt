-- ===== src/Main/Settings.antt =====
-- src/osmud.c: the settings that `main` takes from its options, and `checkForDefaults`.
use osmud.Prelude.{
  ℕ, Bool, true, false, Option, none, some, List, [], ◌∷◌, ◌++◌, Outcome, ok, fault, out_of_bounds,
  ◌>>=◌, if◌then◌else◌, ◌==◌, ltb, length,
}
use osmud.CString.{Bytes, codes, shown}
use osmud.Utils.{copystring}

-- the globals of src/osmud.c that the options set, and the local variables of `main`
pub record Settings : Type 0 where
  pub osmud_pid_file : Option Bytes
  pub dhcp_event_file : Option Bytes
  pub dns_white_list_file : Option Bytes
  pub mud_file_data_directory : Option Bytes
  pub osmud_config_file : Option Bytes
  pub os_mud_log_file : Option Bytes
  pub os_log_level : Option Bytes
  pub no_fail_on_mud_validation : Bool
  pub debug_mode : Bool
  pub foreground_mode : Bool

abbrev pub unset : Settings
unset = record {
  osmud_pid_file = none;
  dhcp_event_file = none;
  dns_white_list_file = none;
  mud_file_data_directory = none;
  osmud_config_file = none;
  os_mud_log_file = none;
  os_log_level = none;
  no_fail_on_mud_validation = false;
  debug_mode = false;
  foreground_mode = false;
}

-- What `getopt` returns, with `optarg`.
abbrev pub Opt : Type 0
Opt = ℕ × Option Bytes

-- The `switch` for an option; none where the program prints and exits: -h, -v and unknown ones.
unfoldable pub take_option : Opt → Settings → Option Settings
take_option (opt, optarg) s =
    if opt == b'd'
    then some (record s { debug_mode = true })
    else if opt == b'i'
    then some (record s { no_fail_on_mud_validation = true })
    else if opt == b'h'
    then none
    else if opt == b'v'
    then none
    else if opt == b'k'
    then some (record s { foreground_mode = true })
    else if opt == b'x'
    then some (record s { osmud_pid_file = copystring optarg })
    else if opt == b'e'
    then some (record s { dhcp_event_file = copystring optarg })
    else if opt == b'w'
    then some (record s { dns_white_list_file = copystring optarg })
    else if opt == b'b'
    then some (record s { mud_file_data_directory = copystring optarg })
    else if opt == b'c'
    then some (record s { osmud_config_file = copystring optarg })
    else if opt == b'l'
    then some (record s { os_mud_log_file = copystring optarg })
    else if opt == b'm'
    then some (record s { os_log_level = copystring optarg })
    else none

-- The loop over the options, up to the -1 of `getopt`.
unfoldable pub read_options : List Opt → Settings → Option Settings
unfolding take_option
read_options [] s = some s
read_options (opt ∷ opts) s = elim (take_option opt s) [
  | some s' ↦ read_options opts s'
  | none ↦ none
]

abbrev pub dns_file_name_with_path : Bytes
dns_file_name_with_path = codes "/etc/dnswhitelist"

abbrev pub mud_file_directory : Bytes
mud_file_directory = codes "/var/state/osmud/mudfiles"

abbrev pub base_config_file : Bytes
base_config_file = codes "/etc/osmud.conf"

abbrev pub default_dhcp_event_file : Bytes
default_dhcp_event_file = codes "/var/log/dhcpmasq.txt"

abbrev pub pid_file : Bytes
pid_file = codes "/var/run/osmud.pid"

abbrev pub osmud_log_file : Bytes
osmud_log_file = codes "/var/log/osmud.log"

-- the global, or the default where it is NULL
abbrev pub default_to : Bytes → Option Bytes → Option Bytes
default_to text none = copystring (some text)
default_to text (some s) = some s

unfoldable pub check_for_defaults : Settings → Settings
unfolding copystring
check_for_defaults s = record s {
  dns_white_list_file = default_to dns_file_name_with_path s.dns_white_list_file;
  mud_file_data_directory = default_to mud_file_directory s.mud_file_data_directory;
  osmud_config_file = default_to base_config_file s.osmud_config_file;
  dhcp_event_file = default_to default_dhcp_event_file s.dhcp_event_file;
  osmud_pid_file = default_to pid_file s.osmud_pid_file;
  os_mud_log_file = default_to osmud_log_file s.os_mud_log_file;
}

-- the buffer of `logInitialSettings`
abbrev pub msg_buf_size : ℕ
msg_buf_size = 4096

-- `sprintf(msgBuf, "<label>%s", value)`: with its NUL the text must lie inside the buffer.
unfoldable pub print_setting : Bytes → Option Bytes → Outcome Bytes
print_setting label value =
    if ltb (length (label ++ shown value)) msg_buf_size
    then ok (label ++ shown value)
    else fault out_of_bounds

-- The six texts in their order; the result is the last.
unfoldable pub log_initial_settings : Settings → Outcome Bytes
unfolding print_setting
log_initial_settings s = print_setting (codes "    PID FILE: ") s.osmud_pid_file >>= λ _.
    print_setting (codes "    DHCP event file: ") s.dhcp_event_file >>= λ _.
    print_setting (codes "    DNS white-list file: ") s.dns_white_list_file >>= λ _.
    print_setting (codes "    MUD file storage directory: ") s.mud_file_data_directory >>= λ _.
    print_setting (codes "    sMUD startup configuration file: ") s.osmud_config_file >>= λ _.
    print_setting (codes "    osMUD logger path and file: ") s.os_mud_log_file
