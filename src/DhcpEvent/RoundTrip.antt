-- ===== src/DhcpEvent/RoundTrip.antt =====
-- The lines that src/dnsmasq/detect_new_device.sh writes to the DHCP log are read back.
use osmud.Prelude.{◌≡◌, refl, ◌∙◌, ap, some, List, [], ◌∷◌, ◌++◌, ok, All}
use osmud.CString.{Bytes, codes, str_eq, written}
use osmud.CString.Tokens.{words}
use osmud.CString.Fields.{IsField, words-field}
use osmud.DhcpEvent.{
  DhcpEvent, DhcpAction, none_action, new_action, old_action, del_action, is_delimiter,
  get_dhcp_event_text, get_dhcp_event_action_class, process_dhcp_event_from_log,
}
use osmud.DhcpEvent.Reading.{two_or_more, tokens, process_dhcp_event_from_log_lem}

-- What the script knows of a lease.
pub record Lease : Type 0 where
  pub date : Bytes
  pub lan_device : Bytes
  pub requested_options : Bytes
  pub mud_url : Bytes
  pub vendor_class : Bytes
  pub mac_address : Bytes
  pub ip_address : Bytes
  pub host_name : Bytes

abbrev pub Field : Bytes → Type 0
Field = IsField is_delimiter

-- No field is empty or holds a delimiter.
pub record IsPrintable (l : Lease) : Type 0 where
  pub date : Field l.date
  pub lan_device : Field l.lan_device
  pub requested_options : Field l.requested_options
  pub mud_url : Field l.mud_url
  pub vendor_class : Field l.vendor_class
  pub mac_address : Field l.mac_address
  pub ip_address : Field l.ip_address
  pub host_name : Field l.host_name

-- fields, each with a "|" behind it
abbrev pub print_fields : List Bytes → Bytes
print_fields [] = []
print_fields (f ∷ fs) = f ++ (b'|' ∷ print_fields fs)

abbrev pub fields : DhcpAction → Lease → List Bytes
fields action l =
    l.date
    ∷ get_dhcp_event_text action
    ∷ l.lan_device
    ∷ codes "DHCP"
    ∷ l.requested_options
    ∷ codes "MUD"
    ∷ l.mud_url
    ∷ l.vendor_class
    ∷ l.mac_address
    ∷ l.ip_address
    ∷ l.host_name
    ∷ []

-- The line that the script writes, up to its newline.
unfoldable pub event_line : DhcpAction → Lease → Bytes
event_line action l = print_fields (fields action l)

tokens-print_fields : (fs : List Bytes) → All Field fs → tokens (print_fields fs) ≡ fs
unfolding is_delimiter
tokens-print_fields [] h = unfold words in refl
tokens-print_fields (f ∷ fs) h =
    words-field is_delimiter f b'|' (print_fields fs) h.0 refl
    ∙ ap (◌∷◌ f) (tokens-print_fields fs h.1)

action_text-Field : (action : DhcpAction) → Field (get_dhcp_event_text action)
unfolding get_dhcp_event_text is_delimiter
action_text-Field none_action = record {
  free = (refl, (refl, (refl, (refl, tt))));
  ne_nil = λ e. cc e;
}
action_text-Field new_action = record { free = (refl, (refl, (refl, tt))); ne_nil = λ e. cc e }
action_text-Field old_action = record { free = (refl, (refl, (refl, tt))); ne_nil = λ e. cc e }
action_text-Field del_action = record { free = (refl, (refl, (refl, tt))); ne_nil = λ e. cc e }

-- The class of the text of an action is that action.
pub get_dhcp_event_action_class-text :
    (action : DhcpAction) → get_dhcp_event_action_class (some (get_dhcp_event_text action)) ≡ action
unfolding get_dhcp_event_text get_dhcp_event_action_class str_eq
get_dhcp_event_action_class-text none_action = refl
get_dhcp_event_action_class-text new_action = refl
get_dhcp_event_action_class-text old_action = refl
get_dhcp_event_action_class-text del_action = refl

fields-Field : (action : DhcpAction) (l : Lease) → IsPrintable l → All Field (fields action l)
unfolding is_delimiter
fields-Field action l p = (
  p.date,
  (
    action_text-Field action,
    (
      p.lan_device,
      (
        record { free = (refl, (refl, (refl, (refl, tt)))); ne_nil = λ e. cc e },
        (
          p.requested_options,
          (
            record { free = (refl, (refl, (refl, tt))); ne_nil = λ e. cc e },
            (p.mud_url, (p.vendor_class, (p.mac_address, (p.ip_address, (p.host_name, tt))))),
          ),
        ),
      ),
    ),
  ),
)

-- The event of a lease: its fields, but no MUD URL of one byte. Three fields are the event's.
abbrev pub leased : DhcpAction → Lease → DhcpEvent → DhcpEvent
leased action l event = record event {
  action = action;
  date = some l.date;
  lan_device = written (some l.lan_device);
  dhcp_request_flags = some l.requested_options;
  dhcp_vendor = some l.vendor_class;
  mac_address = some l.mac_address;
  ip_address = some l.ip_address;
  host_name = some l.host_name;
  mud_file_url = two_or_more (some l.mud_url);
}

-- A line of the script for an action and a lease whose fields are not empty and hold no delimiter
-- is read into the event with that action and those fields; a MUD URL of one byte is dropped, and
-- the three fields that the line does not set stay.
pub process-event_line :
    (action : DhcpAction) (l : Lease) (event : DhcpEvent)
    → IsPrintable l
    → process_dhcp_event_from_log (some (event_line action l)) event ≡ ok (1, leased action l event)
unfolding event_line
process-event_line action l event p =
    process_dhcp_event_from_log_lem (event_line action l) event
    ∙ rw (tokens-print_fields (fields action l) (fields-Field action l p))
        (rw (get_dhcp_event_action_class-text action))
