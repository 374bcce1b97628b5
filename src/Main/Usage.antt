-- ===== src/Main/Usage.antt =====
-- src/osmud.c and src/version.c: what the program prints before it ends on an option.
use osmud.Prelude.{
  ℕ, Bool, true, false, ◌&&◌, Option, none, some, List, [], ◌∷◌, ◌++◌, if◌then◌else◌, ◌==◌,
}
use osmud.CString.{Bytes, codes}
use osmud.Main.Settings.{Settings, Opt, take_option}

abbrev pub build_git_sha : Bytes
build_git_sha = codes "08144c12696f8821ec3b6c1a1dc8368635c09d77"

abbrev pub build_git_time : Bytes
build_git_time = codes "Thu Sep 27 17:48:08 EDT 2018"

-- what `printVersion` prints
unfoldable pub print_version : Bytes
print_version =
    codes "osmud\n"
    ++ (codes "    Version: "
        ++ (build_git_sha
            ++ (codes "\n" ++ (codes "    Build Date: " ++ (build_git_time ++ codes "\n")))))

-- what `printHelp` prints, a text for each call of `printf`
unfoldable pub help_texts : List Bytes
help_texts =
    codes "osmud -h | <options>\n\n"
    ∷ codes "OPTIONS:\n"
    ∷ codes "    -d: Run with -d for now to keep the system from forking into a daemon process\n"
    ∷ codes "    -k: Keep in foreground -- no debug mode, but don't run as daemon process\n"
    ∷ codes "    -x <pidfile>: set PID file -- Normally /var/run/osmud.pid\n"
    ∷ codes "    -m <log-level>: Set log level to INFO, DEBUG, WARN, ERROR, CRIT\n"
    ∷ codes "    -i: Do not fail processing when the MUD file p7s file does not validate\n"
    ∷ codes "    -e <dhcpEventFile>: set the file path and name for DHCP event file\n"
    ∷ codes "    -w <dnsWhiteListFile>: set the file path and name for DNS white-list file\n"
    ∷ codes
        "    -b <MUD file storage data directory>: set the directory path for MUD file storage\n"
    ∷ codes
        "    -c <osMUD config file>: set the directory path and file for osMUD startup configuration file\n"
    ∷ codes "    -l <osMUD logfile>: set the osMUD logger path and file for system event logging.\n"
    ∷ codes "    -v: display osmud version information and exit\n"
    ∷ []

-- What the `switch` prints for an option on which the program exits.
unfoldable pub print_for : Opt → List Bytes
unfolding print_version help_texts
print_for (opt, optarg) = if opt == b'v' then print_version ∷ [] else help_texts

-- What the loop over the options prints.
unfoldable pub print_usage : List Opt → Settings → List Bytes
unfolding print_for
print_usage [] s = []
print_usage (opt ∷ opts) s = elim (take_option opt s) [
  | some s' ↦ print_usage opts s'
  | none ↦ print_for opt
]

-- The letter of an option that a text of the help is about: `    -d: ...`.
unfoldable pub option_letter : Bytes → Option ℕ
option_letter (a ∷ b ∷ c ∷ d ∷ e ∷ letter ∷ rest) =
    if (a == b' ') && ((b == b' ') && ((c == b' ') && ((d == b' ') && (e == b'-'))))
    then some letter
    else none
option_letter _ = none

unfoldable pub letters : List Bytes → Bytes
unfolding option_letter
letters [] = []
letters (text ∷ texts) = elim (option_letter text) [
  | some c ↦ c ∷ letters texts
  | none ↦ letters texts
]

abbrev is_some_settings : Option Settings → Bool
is_some_settings none = false
is_some_settings (some s) = true
