-- ===== src/Tests/Dnsmasq.antt =====
-- A call of dnsmasq.
use osmud.Prelude.{◌≡◌, refl, some, [], ◌∷◌, ok}
use osmud.CString.{Bytes, codes, has}
use osmud.DhcpEvent.{new_action, is_delimiter, process_dhcp_event_from_log, get_dhcp_event_text}
use osmud.DhcpEvent.RoundTrip.{event_line, IsPrintable, leased}
use osmud.CString.Fields.{IsField-of_is_field}
use osmud.Scripts.Shell.{any_byte}
use osmud.Scripts.Getopts.{is_missing, slash_for_blank}
use osmud.Scripts.Dnsmasq.{
  Call, Host, detect_new_device, dash_for_missing, lease_of,
  process_dhcp_event_from_log-detect_new_device,
}
use osmud.Tests.Samples.{blank_event}

abbrev router_host : Host
router_host = record {
  hostname = codes "LEDE";
  domain = codes "lan";
  date = codes "2018-05-27T13:33:28";
}

abbrev pi_call : Call
pi_call = record {
  requested_options = codes "1,121,3";
  vendor_class = [];
  mud_url = codes "https://m.example/pi4.json";
  action = codes "add";
  mac_address = codes "c8:e0:eb:19:01:8d";
  ip_address = codes "192.168.10.55";
  device_name = codes "pi";
}

pi_call-IsPrintable : IsPrintable (lease_of router_host pi_call)
unfolding is_delimiter dash_for_missing is_missing slash_for_blank
pi_call-IsPrintable = record {
  date = IsField-of_is_field is_delimiter router_host.date refl;
  lan_device = IsField-of_is_field is_delimiter (codes "LEDE.lan") refl;
  requested_options = IsField-of_is_field is_delimiter (codes "1,121,3") refl;
  mud_url = IsField-of_is_field is_delimiter (codes "https://m.example/pi4.json") refl;
  vendor_class = IsField-of_is_field is_delimiter (codes "-") refl;
  mac_address = IsField-of_is_field is_delimiter (codes "c8:e0:eb:19:01:8d") refl;
  ip_address = IsField-of_is_field is_delimiter (codes "192.168.10.55") refl;
  host_name = IsField-of_is_field is_delimiter (codes "pi") refl;
}

process_dhcp_event_from_log-detect_new_device_example :
    (line : Bytes) × (detect_new_device (λ w. w ∷ []) router_host pi_call ≡ line ∷ [])
    × (process_dhcp_event_from_log (some line) blank_event
        ≡ ok (1, leased new_action (lease_of router_host pi_call) blank_event))
unfolding any_byte has event_line get_dhcp_event_text dash_for_missing is_missing slash_for_blank
process_dhcp_event_from_log-detect_new_device_example =
    process_dhcp_event_from_log-detect_new_device (λ w. w ∷ []) (λ w h. refl) new_action router_host
      pi_call blank_event refl pi_call-IsPrintable refl refl
