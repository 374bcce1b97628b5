-- ===== src/MudParser/Fill.antt =====
-- The writes of `process_string`, `incrementState` and `processJson` to a `MudFileInfo`. Each goes to
-- the element before a counter, so with the counter at 0 it is a write outside the array.
use osmud.Prelude.{
  ℕ, zero, suc, ◌+◌, Option, List, [], ◌∷◌, Outcome, ok, fault, ◌>>=◌, out_of_bounds, if◌then◌else◌,
}
use osmud.CString.{Bytes, codes, str_eq, written}
use osmud.MudParser.Keys.{
  Key, ParserState, from_device_policy_state, to_device_policy_state, acl_state, aces_state,
}
use osmud.MudParser.Info.{
  acldns, same_manufacturer, controller, my_controller, local_network, AceEntry, AclEntry,
  MudAccessList, MudFileInfo,
}

-- A write to element `i` of an array.
unfoldable pub modify_at {ℓ} : {A : Type ℓ} → List A → ℕ → (A → Outcome A) → Outcome (List A)
modify_at [] i f = fault out_of_bounds
modify_at (x ∷ xs) zero f = do y ← f x; ok (y ∷ xs)
modify_at (x ∷ xs) (suc i) f = do ys ← modify_at xs i f; ok (x ∷ ys)

-- A write to element `count - 1`.
unfoldable pub modify_last {ℓ} : {A : Type ℓ} → ℕ → List A → (A → Outcome A) → Outcome (List A)
modify_last zero xs f = fault out_of_bounds
modify_last (suc i) xs f = modify_at xs i f

-- `mfi->acls[mfi->aclListCount-1]`
unfoldable pub update_acl : (AclEntry → Outcome AclEntry) → MudFileInfo → Outcome MudFileInfo
update_acl f mfi = do
  acls ← modify_last mfi.acl_list_count mfi.acls f
  ok (record mfi { acls = acls })

unfoldable pub update_ace_of : (AceEntry → AceEntry) → AclEntry → Outcome AclEntry
update_ace_of f acl = do
  aces ← modify_last acl.ace_count acl.ace_list (λ ace. ok (f ace))
  ok (record acl { ace_list = aces })

-- `mfi->acls[mfi->aclListCount-1].aceList[mfi->acls[mfi->aclListCount-1].aceCount-1]`
unfoldable pub update_ace : (AceEntry → AceEntry) → MudFileInfo → Outcome MudFileInfo
unfolding update_ace_of
update_ace f = update_acl (update_ace_of f)

unfoldable pub update_from : (MudAccessList → MudAccessList) → MudFileInfo → Outcome MudFileInfo
update_from f mfi = do
  accesses ← modify_last mfi.from_access_list_count mfi.from_access_list (λ a. ok (f a))
  ok (record mfi { from_access_list = accesses })

unfoldable pub update_to : (MudAccessList → MudAccessList) → MudFileInfo → Outcome MudFileInfo
update_to f mfi = do
  accesses ← modify_last mfi.to_access_list_count mfi.to_access_list (λ a. ok (f a))
  ok (record mfi { to_access_list = accesses })

-- a name in the part of the file that the scan is in
unfoldable pub set_name : ParserState → Option Bytes → MudFileInfo → Outcome MudFileInfo
set_name from_device_policy_state v mfi = update_from (λ a. record a { acl_name = v }) mfi
set_name to_device_policy_state v mfi = update_to (λ a. record a { acl_name = v }) mfi
set_name acl_state v mfi = update_acl (λ a. ok (record a { acl_name = v })) mfi
set_name aces_state v mfi = update_ace (λ a. record a { rule_name = v }) mfi
set_name _ v mfi = ok mfi

unfoldable pub set_type : ParserState → Option Bytes → MudFileInfo → Outcome MudFileInfo
set_type from_device_policy_state v mfi = update_from (λ a. record a { acl_type = v }) mfi
set_type to_device_policy_state v mfi = update_to (λ a. record a { acl_type = v }) mfi
set_type acl_state v mfi = update_acl (λ a. ok (record a { acl_type = v })) mfi
set_type _ v mfi = ok mfi

-- what `process_string` stores for a member
unfoldable pub process_key : Key → ParserState → Option Bytes → MudFileInfo → Outcome MudFileInfo
process_key Key.mud_version state v mfi = ok (record mfi { mud_version = v })
process_key Key.mud_url state v mfi = ok (record mfi { mud_url = v })
process_key Key.last_update state v mfi = ok (record mfi { last_update = v })
process_key Key.mud_signature state v mfi = ok (record mfi { mud_version = v })
process_key Key.cache_validity state v mfi = ok (record mfi { cache_validity = v })
process_key Key.is_supported state v mfi = ok (record mfi { is_supported = v })
process_key Key.systeminfo state v mfi = ok (record mfi { systeminfo = v })
process_key Key.mfg_name state v mfi = ok (record mfi { mfg_name = v })
process_key Key.model_name state v mfi = ok (record mfi { model_name = v })
process_key Key.firmware_rev state v mfi = ok (record mfi { firmware_rev = v })
process_key Key.software_rev state v mfi = ok (record mfi { software_rev = v })
process_key Key.extensions state v mfi = ok (record mfi { extensions = v })
process_key Key.some_name state v mfi = set_name state v mfi
process_key Key.some_type state v mfi = set_type state v mfi
process_key Key.protocol state v mfi = update_ace (λ a. record a { protocol = v }) mfi
process_key Key.dns_name state v mfi =
    update_ace (λ a. record a { ace_type = acldns; dns_name = v }) mfi
process_key Key.port state v mfi = update_ace (λ a. record a { upper_port = v; lower_port = v }) mfi
process_key Key.upper_port state v mfi = update_ace (λ a. record a { upper_port = v }) mfi
process_key Key.lower_port state v mfi = update_ace (λ a. record a { lower_port = v }) mfi
process_key Key.forwarding state v mfi = update_ace (λ a. record a { actions_forwarding = v }) mfi
process_key Key.direction_initiated state v mfi =
    update_ace (λ a. record a { direction_initiated = written v }) mfi
process_key Key.other_key state v mfi = ok mfi

unfoldable pub increment_state : ParserState → MudFileInfo → Outcome MudFileInfo
increment_state from_device_policy_state mfi =
    ok (record mfi { from_access_list_count = mfi.from_access_list_count + 1 })
increment_state to_device_policy_state mfi =
    ok (record mfi { to_access_list_count = mfi.to_access_list_count + 1 })
increment_state acl_state mfi =
    update_acl (λ a. ok (record a { ace_count = 0 }))
      (record mfi { acl_list_count = mfi.acl_list_count + 1 })
increment_state aces_state mfi = update_acl (λ a. ok (record a { ace_count = a.ace_count + 1 })) mfi
increment_state _ mfi = ok mfi

-- the tests on the key of an array
unfoldable pub set_ace_type : Bytes → MudFileInfo → Outcome MudFileInfo
set_ace_type key mfi =
    if str_eq key (codes "ietf-mud:same-manufacturer")
    then update_ace (λ a. record a { ace_type = same_manufacturer }) mfi
    else if str_eq key (codes "my-controller")
    then update_ace (λ a. record a { ace_type = my_controller }) mfi
    else if str_eq key (codes "controller")
    then update_ace (λ a. record a { ace_type = controller }) mfi
    else if str_eq key (codes "ietf-mud:local-networks")
    then update_ace (λ a. record a { ace_type = local_network }) mfi
    else ok mfi
