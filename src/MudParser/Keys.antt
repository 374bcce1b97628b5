-- ===== src/MudParser/Keys.antt =====
-- src/mudparser.h: the tokens of a MUD file, and which of them a key is.
use osmud.Prelude.{◌||◌, if◌then◌else◌}
use osmud.CString.{Bytes, codes, str_eq}

-- The members that `process_string` tells apart.
pub data Key : Type 0 where
  mud_version mud_url last_update mud_signature cache_validity is_supported systeminfo : Key
  mfg_name model_name firmware_rev software_rev extensions : Key
  -- "acl-name", "name" or "rule-name"
  some_name : Key
  -- "acl-type" or "type"
  some_type : Key
  protocol : Key
  -- "ietf-acldns:src-dnsname" or "ietf-acldns:dst-dnsname"
  dns_name : Key
  port upper_port lower_port forwarding direction_initiated : Key
  other_key : Key

-- The tests of `process_string`, in their order.
unfoldable pub key_of : Bytes → Key
key_of key =
    if str_eq key (codes "mud-version")
    then mud_version
    else if str_eq key (codes "mud-url")
    then mud_url
    else if str_eq key (codes "last-update")
    then last_update
    else if str_eq key (codes "mud-signature")
    then mud_signature
    else if str_eq key (codes "cache-validity")
    then cache_validity
    else if str_eq key (codes "is-supported")
    then is_supported
    else if str_eq key (codes "systeminfo")
    then systeminfo
    else if str_eq key (codes "mfg-name")
    then mfg_name
    else if str_eq key (codes "model-name")
    then model_name
    else if str_eq key (codes "firmware-rev")
    then firmware_rev
    else if str_eq key (codes "software-rev")
    then software_rev
    else if str_eq key (codes "extensions")
    then extensions
    else if str_eq key (codes "acl-name")
        || str_eq key (codes "name")
        || str_eq key (codes "rule-name")
    then some_name
    else if str_eq key (codes "acl-type") || str_eq key (codes "type")
    then some_type
    else if str_eq key (codes "protocol")
    then protocol
    else if str_eq key (codes "ietf-acldns:src-dnsname")
    then dns_name
    else if str_eq key (codes "ietf-acldns:dst-dnsname")
    then dns_name
    else if str_eq key (codes "port")
    then port
    else if str_eq key (codes "upper-port")
    then upper_port
    else if str_eq key (codes "lower-port")
    then lower_port
    else if str_eq key (codes "forwarding")
    then forwarding
    else if str_eq key (codes "ietf-mud:direction-initiated")
    then direction_initiated
    else other_key

-- The part of the file that the scan is in; `root_state` is 0.
pub data ParserState : Type 0 where
  root_state ietf_mud_state ietf_access_control_lists_state : ParserState
  from_device_policy_state to_device_policy_state acl_state aces_state : ParserState

-- The state in which `processJson` reads the object under a key.
unfoldable pub new_state : Bytes → ParserState → ParserState
new_state key state =
    if str_eq key (codes "ietf-mud:mud")
    then ietf_mud_state
    else if str_eq key (codes "ietf-access-control-list:access-lists")
        || str_eq key (codes "ietf-access-control-list:acls")
    then acl_state
    else if str_eq key (codes "from-device-policy")
    then from_device_policy_state
    else if str_eq key (codes "to-device-policy")
    then to_device_policy_state
    else if str_eq key (codes "aces")
    then aces_state
    else if str_eq key (codes "acl")
    then acl_state
    else state
