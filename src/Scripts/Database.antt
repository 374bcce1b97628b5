-- ===== src/Scripts/Database.antt =====
-- src/openwrt/create_mud_db_entry.sh and src/openwrt/remove_mud_db_entry.sh. The files are the lines
-- that each has; a file that is written can be opened.
use osmud.Prelude.{Option, ℕ, Bool, not, ◌||◌, none, some, List, [], ◌∷◌, ◌++◌, if◌then◌else◌}
use osmud.CString.{Bytes, codes, str_eq}
use osmud.Scripts.Getopts.{getopts, variable, is_missing}
use osmud.Scripts.Firewall.{matching}

-- the lines of each file; a file that is not there has none
abbrev pub Files : Type 0
Files = Bytes → List Bytes

-- the files after the lines of one are replaced
unfoldable pub with_lines : Bytes → List Bytes → Files → Files
with_lines file lines files path = if str_eq path file then lines else files path

-- the string of options of create_mud_db_entry.sh
abbrev pub create_entry_options : Bytes
create_entry_options = codes "hd:i:m:u:f:c:"

-- the string of options of remove_mud_db_entry.sh
abbrev pub remove_entry_options : Bytes
remove_entry_options = codes "hd:i:m:u:f:"

-- the line of an entry
abbrev pub entry_line : Bytes → Bytes → Bytes → Bytes → Bytes → Bytes
entry_line src_ip src_mac_addr mud_url mud_local_file host_name =
    src_ip
    ++ (b'|'
        ∷ (src_mac_addr ++ (b'|' ∷ (mud_url ++ (b'|' ∷ (mud_local_file ++ (b'|' ∷ host_name)))))))

-- the variables are set and the line is printed behind the others
unfoldable pub add_entry : List (ℕ × Bytes) → Files → Files
unfolding with_lines
add_entry options files =
    let file = variable b'd' options in
    with_lines file
      (files file
        ++ (entry_line (variable b'i' options) (variable b'm' options) (variable b'u' options)
              (variable b'f' options) (variable b'c' options)
            ∷ []))
      files

-- behind the loop over the options
unfoldable pub create_entry_with : Option (List (ℕ × Bytes)) → Files → ℕ × Files
unfolding add_entry
create_entry_with none files = (0, files)
create_entry_with (some options) files =
    if is_missing (variable b'd' options)
      || (is_missing (variable b'c' options)
          || (is_missing (variable b'i' options) || is_missing (variable b'm' options)))
    then (1, files)
    else (0, add_entry options files)

unfoldable pub create_mud_db_entry : List Bytes → Files → ℕ × Files
unfolding create_entry_with
create_mud_db_entry args files = create_entry_with (getopts create_entry_options args) files

-- the lines that `grep -v` keeps go through /tmp/mudmaint back to the file
unfoldable pub drop_entries : (Bytes → Bytes → Bool) → Bytes → Bytes → Files → Files
unfolding with_lines matching
drop_entries matches file src_mac_addr files =
    let kept = matching (λ line. not (matches src_mac_addr line)) (files file) in
    with_lines file kept (with_lines (codes "/tmp/mudmaint") [] files)

-- behind the loop over the options
unfoldable pub remove_entry_with :
    (Bytes → Bytes → Bool) → Option (List (ℕ × Bytes)) → Files → ℕ × Files
unfolding drop_entries
remove_entry_with matches none files = (0, files)
remove_entry_with matches (some options) files =
    if is_missing (variable b'd' options)
      || (is_missing (variable b'i' options) || is_missing (variable b'm' options))
    then (1, files)
    else (0, drop_entries matches (variable b'd' options) (variable b'm' options) files)

unfoldable pub remove_mud_db_entry : (Bytes → Bytes → Bool) → List Bytes → Files → ℕ × Files
unfolding remove_entry_with
remove_mud_db_entry matches args files =
    remove_entry_with matches (getopts remove_entry_options args) files
