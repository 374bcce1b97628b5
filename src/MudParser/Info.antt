-- ===== src/MudParser/Info.antt =====
-- src/mudparser.h and `createMfi` of src/mudparser.c: what is kept of a MUD file. The arrays are
-- lists of the arrays' lengths. `createMfi` leaves `directionInitiated` as the allocator returns it.
use osmud.Prelude.{ℕ, Option, none, List, replicate}
use osmud.CString.{Bytes, Slot, unwritten}

abbrev pub max_device_policies : ℕ
max_device_policies = 50

abbrev pub max_aces : ℕ
max_aces = 50

abbrev pub max_acls : ℕ
max_acls = 10

-- `ACE_TYPE`
pub data AceType : Type 0 where
  unknown acldns same_manufacturer controller my_controller local_network : AceType

pub record AceEntry : Type 0 where
  pub ace_type : AceType
  pub rule_name : Option Bytes
  pub protocol : Option Bytes
  pub dns_name : Option Bytes
  pub lower_port : Option Bytes
  pub upper_port : Option Bytes
  pub actions_forwarding : Option Bytes
  pub direction_initiated : Slot

pub record AclEntry : Type 0 where
  pub acl_name : Option Bytes
  pub acl_type : Option Bytes
  pub ace_list : List AceEntry
  pub ace_count : ℕ

pub record MudAccessList : Type 0 where
  pub acl_name : Option Bytes
  pub acl_type : Option Bytes

pub record MudFileInfo : Type 0 where
  pub description : Option Bytes
  pub mud_version : Option Bytes
  pub mud_url : Option Bytes
  pub last_update : Option Bytes
  pub cache_validity : Option Bytes
  pub is_supported : Option Bytes
  pub systeminfo : Option Bytes
  pub mfg_name : Option Bytes
  pub model_name : Option Bytes
  pub firmware_rev : Option Bytes
  pub software_rev : Option Bytes
  pub extensions : Option Bytes
  pub to_access_list : List MudAccessList
  pub from_access_list : List MudAccessList
  pub to_access_list_count : ℕ
  pub from_access_list_count : ℕ
  pub acls : List AclEntry
  pub acl_list_count : ℕ

abbrev pub empty_ace : AceEntry
empty_ace = record {
  ace_type = unknown;
  rule_name = none;
  protocol = none;
  dns_name = none;
  lower_port = none;
  upper_port = none;
  actions_forwarding = none;
  direction_initiated = unwritten;
}

abbrev pub empty_acl : AclEntry
empty_acl = record {
  acl_name = none;
  acl_type = none;
  ace_list = replicate max_aces empty_ace;
  ace_count = 0;
}

abbrev pub empty_access : MudAccessList
empty_access = record { acl_name = none; acl_type = none }

unfoldable pub create_mfi : MudFileInfo
create_mfi = record {
  description = none;
  mud_version = none;
  mud_url = none;
  last_update = none;
  cache_validity = none;
  is_supported = none;
  systeminfo = none;
  mfg_name = none;
  model_name = none;
  firmware_rev = none;
  software_rev = none;
  extensions = none;
  to_access_list = replicate max_device_policies empty_access;
  from_access_list = replicate max_device_policies empty_access;
  to_access_list_count = 0;
  from_access_list_count = 0;
  acls = replicate max_acls empty_acl;
  acl_list_count = 0;
}
