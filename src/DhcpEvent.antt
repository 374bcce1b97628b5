-- ===== src/DhcpEvent.antt =====
-- src/dhcp_event.c and src/dhcp_event.h: events of the DHCP log, and the locations of MUD files.
pub mod Reading
pub mod RoundTrip
pub mod Locations
pub mod Context
use osmud.Prelude.{
  ℕ, zero, suc, ◌+◌, Bool, ◌||◌, Option, none, some, List, [], ◌∷◌, ◌++◌, Outcome, ok, fault, ◌>>=◌,
  out_of_bounds, uninitialized, ltb, ◌==◌, if◌then◌else◌, length, replicate,
}
use osmud.CString.{Bytes, codes, str_eq, basename, shown, Slot, unwritten, written}
use osmud.CString.Tokens.{strtok}
use osmud.Utils.{HeapText, replace_extension}

-- `DHCP_ACTIONS`
pub data DhcpAction : Type 0 where
  none_action new_action old_action del_action : DhcpAction

pub record DhcpEvent : Type 0 where
  pub date : Option Bytes
  pub action : DhcpAction
  pub lan_device : Slot
  pub mac_address : Option Bytes
  pub ip_address : Option Bytes
  pub host_name : Option Bytes
  pub dhcp_request_flags : Option Bytes
  pub dhcp_vendor : Option Bytes
  pub mud_file_url : Option Bytes
  pub mud_sig_url : Option Bytes
  pub mud_file_storage_location : Option Bytes
  pub mud_sig_file_storage_location : Option Bytes

abbrev pub text_new : Bytes
text_new = codes "NEW"

abbrev pub text_old : Bytes
text_old = codes "OLD"

abbrev pub text_del : Bytes
text_del = codes "DEL"

unfoldable pub get_dhcp_event_text : DhcpAction → Bytes
get_dhcp_event_text new_action = text_new
get_dhcp_event_text old_action = text_old
get_dhcp_event_text del_action = text_del
get_dhcp_event_text none_action = codes "NONE"

unfoldable pub get_dhcp_event_action_class : Option Bytes → DhcpAction
get_dhcp_event_action_class none = none_action
get_dhcp_event_action_class (some dhcp_action) =
    if str_eq dhcp_action text_new
    then new_action
    else if str_eq dhcp_action text_old
    then old_action
    else if str_eq dhcp_action text_del
    then del_action
    else none_action

-- the delimiters "|\t\n\r"
unfoldable pub is_delimiter : ℕ → Bool
is_delimiter c = c == b'|' || c == b'\t' || c == b'\n' || c == b'\r'

-- the size of `array`
abbrev pub array_size : ℕ
array_size = 20

-- The loop over `strtok`, with the elements of `array` that are left. Each round stores the token,
-- or the NULL that ends the loop.
unfoldable pub fill_array : ℕ → Bytes → Outcome (List Slot)
fill_array zero saved = fault out_of_bounds
fill_array (suc room) saved = elim (strtok is_delimiter saved) [
  | none ↦ ok (written none ∷ replicate room unwritten)
  | some (token, rest) ↦ (do slots ← fill_array room rest; ok (written (some token) ∷ slots))
]

-- `array[i]`
unfoldable pub array_at : List Slot → ℕ → Outcome (Option Bytes)
array_at [] i = fault out_of_bounds
array_at (unwritten ∷ slots) zero = fault uninitialized
array_at (written p ∷ slots) zero = ok p
array_at (_ ∷ slots) (suc i) = array_at slots i

-- A MUD URL that is one char long is assumed to be invalid.
unfoldable pub usable_url : Option Bytes → Option Bytes
usable_url none = none
usable_url (some url) = if ltb 1 (length url) then some url else none

-- The result is `retval` with the event as it is left.
unfoldable pub process_dhcp_event_from_log : Option Bytes → DhcpEvent → Outcome (ℕ × DhcpEvent)
process_dhcp_event_from_log none event = ok (0, event)
process_dhcp_event_from_log (some log_message) event = do
  array ← fill_array array_size log_message
  action ← array_at array 1
  date ← array_at array 0
  lan_device ← array_at array 2
  flags ← array_at array 4
  vendor ← array_at array 7
  mac ← array_at array 8
  ip ← array_at array 9
  host ← array_at array 10
  url ← array_at array 6
  ok (
    1,
    record event {
      action = get_dhcp_event_action_class action;
      date = date;
      lan_device = written lan_device;
      dhcp_request_flags = flags;
      dhcp_vendor = vendor;
      mac_address = mac;
      ip_address = ip;
      host_name = host;
      mud_file_url = usable_url url;
    },
  )

-- What is freed is not modelled; `lanDevice` is neither freed nor cleared.
unfoldable pub clear_dhcp_event_record : DhcpEvent → DhcpEvent
clear_dhcp_event_record event = record event {
  action = none_action;
  date = none;
  mac_address = none;
  ip_address = none;
  host_name = none;
  dhcp_request_flags = none;
  dhcp_vendor = none;
  mud_file_url = none;
  mud_sig_url = none;
  mud_file_storage_location = none;
  mud_sig_file_storage_location = none;
}

-- The location, and what `basename` leaves in `mudURL`.
unfoldable pub create_storage_location : Bytes → Option Bytes → Option HeapText × Option Bytes
unfolding basename
create_storage_location mud_file_data_directory none = (none, none)
create_storage_location mud_file_data_directory (some mud_url) =
    let (file_name, left) = basename mud_url in
    (
      some (record {
        capacity = length mud_file_data_directory + length file_name + 1;
        text = mud_file_data_directory ++ (b'/' ∷ file_name);
      }),
      some left,
    )

-- `MUD_FILE_SIGNATURE_EXTENSION`
abbrev pub mud_file_signature_extension : Bytes
mud_file_signature_extension = codes "p7s"

unfoldable pub create_sig_url_from_mud_url : Option Bytes → Option HeapText
unfolding replace_extension
create_sig_url_from_mud_url none = none
create_sig_url_from_mud_url (some url) =
    replace_extension (some url) (some mud_file_signature_extension)

-- the text that is printed to the log message
unfoldable pub build_dhcp_event_context : Bytes → DhcpEvent → Bytes
unfolding shown
build_dhcp_event_context action event =
    action
    ++ (codes " Device Action: IP: "
        ++ (shown event.ip_address ++ (codes ", MAC: " ++ shown event.mac_address)))
