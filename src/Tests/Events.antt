-- ===== src/Tests/Events.antt =====
-- Reading lines of the DHCP log.
use osmud.Prelude.{
  arith, ◌<◌, ◌+◌, ◌≤◌, false, some, ◌∷◌, ◌++◌, ◌≡◌, refl, ok, fault, if◌then◌else◌, leb, ltb,
  length, out_of_bounds, uninitialized,
}
use osmud.CString.{codes, has, written}
use osmud.CString.Tokens.{strtok}
use osmud.CString.Fields.{IsField-of_is_field}
use osmud.Utils.{HeapText, fits}
use osmud.DhcpEvent.{
  get_dhcp_event_text, DhcpEvent, build_dhcp_event_context, new_action, is_delimiter,
  process_dhcp_event_from_log, fill_array, array_at, create_storage_location, array_size,
}
use osmud.DhcpEvent.Reading.{two_or_more, tokens, event_of, process_dhcp_event_from_log_lem}
use osmud.DhcpEvent.RoundTrip.{event_line, IsPrintable, process-event_line}
use osmud.DhcpEvent.Context.{log_msg_buf_size, build_dhcp_event_context-fits}
use osmud.DhcpEvent.Locations.{create_storage_location_lem}
use osmud.Tests.Samples.{blank_event, lease}

short_line :
    process_dhcp_event_from_log (some (codes "today|NEW|lan")) blank_event ≡ fault uninitialized
unfolding process_dhcp_event_from_log fill_array array_at strtok is_delimiter
short_line = refl

pub lease-IsPrintable : IsPrintable lease
unfolding is_delimiter
lease-IsPrintable = record {
  date = IsField-of_is_field is_delimiter lease.date refl;
  lan_device = IsField-of_is_field is_delimiter lease.lan_device refl;
  requested_options = IsField-of_is_field is_delimiter lease.requested_options refl;
  mud_url = IsField-of_is_field is_delimiter lease.mud_url refl;
  vendor_class = IsField-of_is_field is_delimiter lease.vendor_class refl;
  mac_address = IsField-of_is_field is_delimiter lease.mac_address refl;
  ip_address = IsField-of_is_field is_delimiter lease.ip_address refl;
  host_name = IsField-of_is_field is_delimiter lease.host_name refl;
}

-- the event that the line of the lease is read into
abbrev read_lease : DhcpEvent
read_lease = record blank_event {
  action = new_action;
  date = some lease.date;
  lan_device = written (some lease.lan_device);
  dhcp_request_flags = some lease.requested_options;
  dhcp_vendor = some lease.vendor_class;
  mac_address = some lease.mac_address;
  ip_address = some lease.ip_address;
  host_name = some lease.host_name;
  mud_file_url = two_or_more (some lease.mud_url);
}

process-event_line_run :
    process_dhcp_event_from_log (some (event_line new_action lease)) blank_event
    ≡ ok (1, read_lease)
process-event_line_run = process-event_line new_action lease blank_event lease-IsPrintable

process_dhcp_event_from_log_lem_example :
    process_dhcp_event_from_log (some (codes "d|NEW|lan")) blank_event ≡ (
      if leb array_size (length (tokens (codes "d|NEW|lan")))
      then fault out_of_bounds
      else if ltb (length (tokens (codes "d|NEW|lan"))) 10
      then fault uninitialized
      else ok (1, event_of (tokens (codes "d|NEW|lan")) blank_event))
process_dhcp_event_from_log_lem_example =
    process_dhcp_event_from_log_lem (codes "d|NEW|lan") blank_event

create_storage_location_lem_example :
    (h : HeapText) × (create_storage_location
        (codes "/var/mud")
        (some (codes "http://m.org" ++ (b'/' ∷ codes "pi4.json")))
      ≡ (some h, some (codes "http://m.org" ++ (b'/' ∷ codes "pi4.json"))))
    × (h.text ≡ codes "/var/mud" ++ (b'/' ∷ codes "pi4.json"))
    × (h.capacity ≡ length h.text)
    × (fits h ≡ false)
unfolding has
create_storage_location_lem_example =
    create_storage_location_lem (codes "/var/mud") (codes "http://m.org") (codes "pi4.json")
      (λ e. cc e) refl

-- the line of test/textfile, whose fields are divided by blanks: it is a single token
textfile_run :
    process_dhcp_event_from_log
      (some (
        codes
          "2018-05-27T13:33:28 NEW device LEDE.lan DHCP 1,121,3 MUD https://mudfiles.nist.getyikes.com/pi4.json c8:e0:eb:19:01:8d 192.168.10.55 macbook-pro"))
      blank_event
    ≡ fault uninitialized
unfolding process_dhcp_event_from_log fill_array array_at strtok is_delimiter
textfile_run = refl

build_dhcp_event_context-fits_example :
    (length (build_dhcp_event_context (codes "DEL") read_lease)
      ≤ 30 + length (event_line new_action lease))
    × (length (build_dhcp_event_context (codes "DEL") read_lease) < log_msg_buf_size)
unfolding event_line get_dhcp_event_text
build_dhcp_event_context-fits_example =
    build_dhcp_event_context-fits (codes "DEL") (event_line new_action lease) blank_event refl
      (omega arith) process-event_line_run
