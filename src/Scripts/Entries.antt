-- ===== src/Scripts/Entries.antt =====
-- What a run of the commands for the database of devices does.
use osmud.Prelude.{ℕ, ◌<◌, Option, some, List, [], ◌∷◌, ◌++◌, ◌≡◌, refl, ap, ◌∙◌, length, All}
use osmud.CString.{Bytes, shown, has, str_eq}
use osmud.CString.Laws.{snprintf_fits}
use osmud.OpenWrt.{
  buf_size, command, create_entry_command, remove_entry_command, mud_db_create_script,
  mud_db_created_file, mud_db_removed_file, dash_for_null,
}
use osmud.Scripts.Shell.{IsWord, IsOption, command_text, read_command-command_text, any_byte}
use osmud.Scripts.Getopts.{getopts-arguments, IsGiven, takes_value, set_from, is_missing}
use osmud.Scripts.Database.{
  with_lines, add_entry, create_entry_with, create_mud_db_entry, create_entry_options,
}
use osmud.Scripts.RoundTrip.{IsWord-of_is_plain, is_missing-IsWord}
use osmud.Scripts.Machine.{World, Tools, run_program, run_command_text, run_effect, run_reading}

-- fields with a bar between them
abbrev pub joined : List Bytes → Bytes
joined [] = []
joined (f ∷ []) = f
joined (f ∷ g ∷ fs) = f ++ (b'|' ∷ joined (g ∷ fs))

-- The texts of an entry, as they are printed.
pub record IsPlainEntry (file ip mac url local host : Bytes) : Type 0 where
  pub file_word : IsWord file
  pub ip_word : IsWord ip
  pub mac_word : IsWord mac
  pub url_word : IsWord url
  pub local_word : IsWord local
  pub host_word : IsWord host

-- the options of the command that creates an entry
abbrev entry_options : Bytes → Bytes → Bytes → Bytes → Bytes → Bytes → List (ℕ × Bytes)
entry_options file ip mac url local host =
    (b'd', file) ∷ (b'i', ip) ∷ (b'm', mac) ∷ (b'c', host) ∷ (b'u', url) ∷ (b'f', local) ∷ []

-- the options of the command that removes one
abbrev removed_options : Bytes → Bytes → Bytes → List (ℕ × Bytes)
removed_options file ip mac = (b'd', file) ∷ (b'i', ip) ∷ (b'm', mac) ∷ []

module _ {S : Type 0} (tools : Tools S) where
  -- A command of create_mud_db_entry.sh with options that the script knows is what the script does
  -- with them.
  run_effect-create_script :
      (options : List (ℕ × Bytes)) (w : World S)
      → All IsOption options
      → All (IsGiven create_entry_options) options
      → length (command_text mud_db_create_script options) < buf_size
      → run_effect tools (command (command_text mud_db_create_script options)) w ≡ (
        (create_entry_with (some options) w.files).0,
        record { config = w.config; files = (create_entry_with (some options) w.files).1 },
      )
  unfolding run_command_text run_reading run_program str_eq create_mud_db_entry any_byte has
  run_effect-create_script options w plain given fits =
      let text = command_text mud_db_create_script options in
      ap (λ s. run_command_text tools s w) (snprintf_fits buf_size text fits)
      ∙ ap (λ o. run_reading tools text o w)
          (read_command-command_text mud_db_create_script options
            (IsWord-of_is_plain mud_db_create_script refl) plain)
      ∙ ap
          (λ o. (
            (create_entry_with o w.files).0,
            record { config = w.config; files = (create_entry_with o w.files).1 },
          ))
          (getopts-arguments create_entry_options options given)

  -- Where its texts are words and it fits the buffer, the command that creates an entry ends with
  -- status 0, and a line of the IP address, the MAC address, the URL, the local file and the host,
  -- with bars between, stands behind those of the file.
  pub run_effect-create_entry_command :
      (dir : Bytes) (ip mac url local host : Option Bytes) (w : World S)
      → IsPlainEntry
          (mud_db_created_file dir)
          (shown ip)
          (shown mac)
          (dash_for_null url)
          (dash_for_null local)
          (dash_for_null host)
      → length (create_entry_command dir ip mac url local host) < buf_size
      → run_effect tools (command (create_entry_command dir ip mac url local host)) w ≡ (
        0,
        record {
          config = w.config;
          files =
              with_lines
                (mud_db_created_file dir)
                (w.files (mud_db_created_file dir)
                  ++ (joined (
                        shown ip
                        ∷ shown mac
                        ∷ dash_for_null url
                        ∷ dash_for_null local
                        ∷ dash_for_null host
                        ∷ [])
                      ∷ []))
                w.files;
        },
      )
  unfolding create_entry_command create_entry_with add_entry set_from takes_value any_byte has
  run_effect-create_entry_command dir ip mac url local host w h fits =
      let options =
        entry_options (mud_db_created_file dir) (shown ip) (shown mac) (dash_for_null url)
          (dash_for_null local) (dash_for_null host) in
      run_effect-create_script options w
        (
          (refl, h.file_word),
          (
            (refl, h.ip_word),
            (
              (refl, h.mac_word),
              ((refl, h.host_word), ((refl, h.url_word), ((refl, h.local_word), tt))),
            ),
          ),
        )
        (
          (refl, refl),
          ((refl, refl), ((refl, refl), ((refl, refl), ((refl, refl), ((refl, refl), tt))))),
        )
        fits
      ∙ rw
          (
            create_entry_with,
            is_missing-IsWord _ h.file_word,
            is_missing-IsWord _ h.host_word,
            is_missing-IsWord _ h.ip_word,
            is_missing-IsWord _ h.mac_word,
          )
          refl

  -- Where its texts are words and it fits the buffer, the command that is to remove an entry ends
  -- with status 1 and changes nothing: it runs the script that creates entries, which wants the name
  -- of the host.
  pub run_effect-remove_entry_command :
      (dir : Bytes) (ip mac : Option Bytes) (w : World S)
      → IsWord (mud_db_removed_file dir)
      → IsWord (shown ip)
      → IsWord (shown mac)
      → length (remove_entry_command dir ip mac) < buf_size
      → run_effect tools (command (remove_entry_command dir ip mac)) w ≡ (1, w)
  unfolding remove_entry_command create_entry_with set_from takes_value is_missing any_byte has
  run_effect-remove_entry_command dir ip mac w file_word ip_word mac_word fits =
      let options = removed_options (mud_db_removed_file dir) (shown ip) (shown mac) in
      run_effect-create_script options w
        ((refl, file_word), ((refl, ip_word), ((refl, mac_word), tt)))
        ((refl, refl), ((refl, refl), ((refl, refl), tt))) fits
      ∙ rw (is_missing-IsWord _ file_word) refl
