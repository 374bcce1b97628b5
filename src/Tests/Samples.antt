-- ===== src/Tests/Samples.antt =====
-- The inputs of the tests.
use osmud.Prelude.{◌≡◌, ◌↔◌, refl, true, false, none, some, [], ◌∷◌}
use osmud.CString.{Bytes, codes, unwritten}
use osmud.MudParser.Values.{
  Json, null, boolean, double, int, string, object, array, end, field, Items, nil, cons, JsonC,
  lone_null_text,
}
use osmud.MudManager.Access.{Globals}
use osmud.Outside.{Env}
use osmud.DhcpEvent.{DhcpEvent, none_action}
use osmud.DhcpEvent.RoundTrip.{Lease}

-- the event before the first line is read
abbrev pub blank_event : DhcpEvent
blank_event = record {
  date = none;
  action = none_action;
  lan_device = unwritten;
  mac_address = none;
  ip_address = none;
  host_name = none;
  dhcp_request_flags = none;
  dhcp_vendor = none;
  mud_file_url = none;
  mud_sig_url = none;
  mud_file_storage_location = none;
  mud_sig_file_storage_location = none;
}

abbrev pub lease : Lease
lease = record {
  date = codes "2018-05-27T13:33:28";
  lan_device = codes "LEDE.lan";
  requested_options = codes "1,121,3";
  mud_url = codes "https://m.example/pi4.json";
  vendor_class = codes "-";
  mac_address = codes "c8:e0:eb:19:01:8d";
  ip_address = codes "192.168.10.55";
  host_name = codes "pi";
}

-- every call succeeds, and every host has the address 9.9.9.9
abbrev pub calm : Env
calm = record {
  status = λ t e. 0;
  opens = λ t e. true;
  addresses = λ t h. some (codes "9.9.9.9" ∷ []);
  contents = λ t f. some (codes "{}");
}

abbrev pub globals : Globals
globals = record {
  dns_white_list_file = codes "/tmp/dns";
  mud_file_data_directory = codes "/var/mud";
  no_fail_on_mud_validation = false;
}

-- one member
abbrev pub member : Bytes → Json → Json
member key val = object (field key val end)

-- the access list of a policy that names one acl
abbrev policy : Bytes → Json
policy name =
    member (codes "access-lists")
      (member (codes "access-list") (array (cons (member (codes "name") (string name)) nil)))

-- an ace for a host
abbrev ace : Bytes → Json
ace side = object (
    field (codes "rule-name") (string (codes "cl0")) (
      field (codes "matches")
        (member (codes "ipv4-acl") (
          object (
            field side (string (codes "m.example")) (
              field (codes "protocol") (int (codes "6")) (
                field (codes "destination-port-range-or-operator")
                  (member (codes "port") (int (codes "443"))) end)))))
        (field (codes "actions") (member (codes "forwarding") (string (codes "accept"))) end)))

abbrev acl : Bytes → Bytes → Json
acl name side = object (
    field (codes "name") (string name) (
      field (codes "acl-type") (string (codes "ipv4-acl-type"))
        (field (codes "aces") (member (codes "ace") (array (cons (ace side) nil))) end)))

-- a MUD file with one acl for each direction
abbrev pub document : Json
document = object (
    field (codes "ietf-mud:mud")
      (object (
        field (codes "mud-version") (int (codes "1")) (
          field (codes "from-device-policy") (policy (codes "fr"))
            (field (codes "to-device-policy") (policy (codes "to")) end))))
      (field (codes "ietf-access-control-list:access-lists")
        (member (codes "acl") (
          array (
            cons (acl (codes "fr") (codes "ietf-acldns:dst-dnsname"))
              (cons (acl (codes "to") (codes "ietf-acldns:src-dnsname")) nil))))
        end))

array_text : Items → Bytes
array_text (cons null nil) = lone_null_text
array_text _ = codes "[ ]"

-- what json-c prints, as far as the tests need it
unfoldable pub value_text : Json → Bytes
unfolding array_text
value_text null = codes "null"
value_text (boolean b) = codes "true"
value_text (double s) = s
value_text (int s) = s
value_text (string s) = s
value_text (object fields) = codes "{ }"
value_text (array items) = array_text items

pub value_text-lone_null :
    (xs : Items) → (value_text (array xs) ≡ lone_null_text) ↔ (xs ≡ cons null nil)
unfolding value_text array_text
value_text-lone_null nil = (λ e. cc, λ e. cc)
value_text-lone_null (cons null nil) = (λ e. refl, λ e. refl)
value_text-lone_null (cons null (cons x xs)) = (λ e. cc, λ e. cc)
value_text-lone_null _ = (λ e. cc, λ e. cc)

pub value_text-string : (s : Bytes) → value_text (string s) ≡ s
unfolding value_text
value_text-string s = refl

pub value_text-int : (s : Bytes) → value_text (int s) ≡ s
unfolding value_text
value_text-int s = refl

-- a json-c whose parser always returns the document
abbrev pub json_c : JsonC
json_c = record {
  tokener_parse = λ text. document;
  get_string = value_text;
  get_string-string = value_text-string;
  get_string-int = value_text-int;
  lone_null = value_text-lone_null;
}
