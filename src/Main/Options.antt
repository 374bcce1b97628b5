-- ===== src/Main/Options.antt =====
-- What the options leave in the settings, and which settings the log can print.
use osmud.Prelude.{
  ◌&&◌, length-append, ℕ, ◌+◌, Bool, true, ◌||◌, ◌&&◌, Option, none, some, List, [], ◌∷◌, ◌++◌, ◌≡◌,
  refl, arith, ok, fault, out_of_bounds, Bool-cases, inl, inr, length-append, if◌then◌else◌, ◌==◌,
  ltb, length,
}
use osmud.CString.{Bytes, codes, shown}
use osmud.Utils.{copystring}
use osmud.Main.Settings.{
  Settings, Opt, take_option, read_options, print_setting, log_initial_settings,
}

-- the argument of the last option with a letter, or what was there before
unfoldable pub last_given : ℕ → List Opt → Option Bytes → Option Bytes
last_given letter [] before = before
last_given letter ((opt, optarg) ∷ opts) before =
    last_given letter opts (if opt == letter then optarg else before)

-- Is there an option with the letter, or was it set before?
unfoldable pub given : ℕ → List Opt → Bool → Bool
given letter [] before = before
given letter ((opt, optarg) ∷ opts) before =
    given letter opts (if opt == letter then true else before)

-- the settings by the last option of each letter
abbrev pub by_last : List Opt → Settings → Settings
by_last opts s = record {
  osmud_pid_file = last_given b'x' opts s.osmud_pid_file;
  dhcp_event_file = last_given b'e' opts s.dhcp_event_file;
  dns_white_list_file = last_given b'w' opts s.dns_white_list_file;
  mud_file_data_directory = last_given b'b' opts s.mud_file_data_directory;
  osmud_config_file = last_given b'c' opts s.osmud_config_file;
  os_mud_log_file = last_given b'l' opts s.os_mud_log_file;
  os_log_level = last_given b'm' opts s.os_log_level;
  no_fail_on_mud_validation = given b'i' opts s.no_fail_on_mud_validation;
  debug_mode = given b'd' opts s.debug_mode;
  foreground_mode = given b'k' opts s.foreground_mode;
}

copystring-same : (a : Option Bytes) → copystring a ≡ a
unfolding copystring
copystring-same none = refl
copystring-same (some s) = refl

-- the letters that `main` goes on after: those of its table, less h and v
abbrev pub is_accepted : ℕ → Bool
is_accepted opt =
    opt == b'd'
    || opt == b'i'
    || opt == b'k'
    || opt == b'x'
    || opt == b'e'
    || opt == b'w'
    || opt == b'b'
    || opt == b'c'
    || opt == b'l'
    || opt == b'm'

unfoldable pub all_accepted : List Opt → Bool
all_accepted [] = true
all_accepted ((opt, optarg) ∷ opts) = is_accepted opt && all_accepted opts

take_option-by_last :
    (opt : ℕ) (optarg : Option Bytes) (s : Settings)
    → take_option (opt, optarg) s
      ≡ (if is_accepted opt then some (by_last ((opt, optarg) ∷ []) s) else none)
unfolding take_option last_given given
take_option-by_last opt optarg s = ground (arith, copystring-same optarg)

-- The program goes on exactly if every option is accepted. Then each setting is the argument of the
-- last option of its letter, and each flag is set if its letter is among them; a setting without an
-- option stays as it was.
pub read_options-by_last :
    (opts : List Opt) (s : Settings)
    → read_options opts s ≡ (if all_accepted opts then some (by_last opts s) else none)
unfolding read_options last_given given all_accepted
read_options-by_last [] s = refl
read_options-by_last ((opt, optarg) ∷ opts) s = elim (Bool-cases (is_accepted opt)) [
  | inl e ↦
      rw (take_option-by_last opt optarg s, e, read_options)
        (read_options-by_last opts (by_last ((opt, optarg) ∷ []) s))
  | inr e ↦ rw (take_option-by_last opt optarg s, e, read_options) refl
]

-- The value of a setting, printed behind its label, with the NUL.
abbrev pub is_printable : Bytes → Option Bytes → Bool
is_printable label value = ltb (length label + length (shown value)) 4096

print_setting-printable :
    (label : Bytes) (value : Option Bytes)
    → print_setting label value
      ≡ (if is_printable label value then ok (label ++ shown value) else fault out_of_bounds)
unfolding print_setting
print_setting-printable label value = ground (arith, length-append label (shown value))

-- Does the message of each setting fit the buffer?
abbrev pub settings_fit : Settings → Bool
settings_fit s =
    is_printable (codes "    PID FILE: ") s.osmud_pid_file
    && is_printable (codes "    DHCP event file: ") s.dhcp_event_file
    && is_printable (codes "    DNS white-list file: ") s.dns_white_list_file
    && is_printable (codes "    MUD file storage directory: ") s.mud_file_data_directory
    && is_printable (codes "    sMUD startup configuration file: ") s.osmud_config_file
    && is_printable (codes "    osMUD logger path and file: ") s.os_mud_log_file

-- The log of the settings writes inside its buffer of 4096 bytes exactly if each of the six values,
-- behind its label and with its NUL, fits the buffer; otherwise it writes behind the buffer.
pub log_initial_settings-fits :
    (s : Settings)
    → log_initial_settings s ≡ (
        if settings_fit s
        then ok (codes "    osMUD logger path and file: " ++ shown s.os_mud_log_file)
        else fault out_of_bounds)
unfolding log_initial_settings
log_initial_settings-fits s = ground (
  arith,
  print_setting-printable (codes "    PID FILE: ") s.osmud_pid_file,
  print_setting-printable (codes "    DHCP event file: ") s.dhcp_event_file,
  print_setting-printable (codes "    DNS white-list file: ") s.dns_white_list_file,
  print_setting-printable (codes "    MUD file storage directory: ") s.mud_file_data_directory,
  print_setting-printable (codes "    sMUD startup configuration file: ") s.osmud_config_file,
  print_setting-printable (codes "    osMUD logger path and file: ") s.os_mud_log_file,
)
