-- ===== src/MudParser/Scan.antt =====
-- The shape of a `MudFileInfo` through `processJson`, and what `getMudFileAcl` finds in it.
use osmud.Prelude.{
  ◌+◌, Option, some, ◌≡◌, refl, Outcome, ok, ◌>>=◌, bind-eq-ok, ok_injective, if◌then◌else◌, Bool,
  true, false,
}
use osmud.CString.{Bytes, codes, str_eq}
use osmud.MudParser.Values.{
  Json, null, boolean, double, int, string, object, array, Fields, end, field, Items, nil, cons,
  JsonC, lone_null_text,
}
use osmud.MudParser.Keys.{
  Key, key_of, ParserState, root_state, ietf_mud_state, ietf_access_control_lists_state,
  from_device_policy_state, to_device_policy_state, acl_state, aces_state, new_state,
}
use osmud.MudParser.Info.{
  AceType, same_manufacturer, my_controller, controller, local_network, AclEntry, MudFileInfo,
}
use osmud.MudParser.Fill.{
  update_acl, update_ace, set_name, set_type, process_key, increment_state, set_ace_type,
}
use osmud.MudParser.Shape.{
  IsSized, IsShaped, ok-IsShaped, update_acl-IsShaped, update_ace-IsShaped, update_from-IsShaped,
  update_to-IsShaped,
}
use osmud.MudParser.{process_json, process_fields, process_value, process_items, process_string}

-- A write to an acl that leaves its entries.
same_list :
    (f : AclEntry → AclEntry)
    → ((a : AclEntry) → (f a).ace_list ≡ a.ace_list)
    → (mfi : MudFileInfo) {mfi' : MudFileInfo} → update_acl (λ a. ok (f a)) mfi ≡ ok mfi'
    → IsSized mfi
    → IsShaped mfi'
same_list f same mfi h s =
    update_acl-IsShaped (λ a. ok (f a)) (λ a b e room. rw (← ok_injective e) (rw (same a) room)) mfi
      h s

set_name-IsShaped :
    (state : ParserState) (v : Option Bytes) (mfi : MudFileInfo) {mfi' : MudFileInfo}
    → set_name state v mfi ≡ ok mfi'
    → IsShaped mfi
    → IsShaped mfi'
unfolding set_name
set_name-IsShaped from_device_policy_state v mfi h s = update_from-IsShaped _ mfi h s
set_name-IsShaped to_device_policy_state v mfi h s = update_to-IsShaped _ mfi h s
set_name-IsShaped acl_state v mfi h s =
    same_list (λ a. record a { acl_name = v }) (λ a. refl) mfi h s.0
set_name-IsShaped aces_state v mfi h s = update_ace-IsShaped _ mfi h s
set_name-IsShaped root_state v mfi h s = ok-IsShaped h s
set_name-IsShaped ietf_mud_state v mfi h s = ok-IsShaped h s
set_name-IsShaped ietf_access_control_lists_state v mfi h s = ok-IsShaped h s

set_type-IsShaped :
    (state : ParserState) (v : Option Bytes) (mfi : MudFileInfo) {mfi' : MudFileInfo}
    → set_type state v mfi ≡ ok mfi'
    → IsShaped mfi
    → IsShaped mfi'
unfolding set_type
set_type-IsShaped from_device_policy_state v mfi h s = update_from-IsShaped _ mfi h s
set_type-IsShaped to_device_policy_state v mfi h s = update_to-IsShaped _ mfi h s
set_type-IsShaped acl_state v mfi h s =
    same_list (λ a. record a { acl_type = v }) (λ a. refl) mfi h s.0
set_type-IsShaped aces_state v mfi h s = ok-IsShaped h s
set_type-IsShaped root_state v mfi h s = ok-IsShaped h s
set_type-IsShaped ietf_mud_state v mfi h s = ok-IsShaped h s
set_type-IsShaped ietf_access_control_lists_state v mfi h s = ok-IsShaped h s

process_key-IsShaped :
    (key : Key) (state : ParserState) (v : Option Bytes) (mfi : MudFileInfo) {mfi' : MudFileInfo}
    → process_key key state v mfi ≡ ok mfi'
    → IsShaped mfi
    → IsShaped mfi'
unfolding process_key
process_key-IsShaped Key.mud_version state v mfi h s = ok-IsShaped h s
process_key-IsShaped Key.mud_url state v mfi h s = ok-IsShaped h s
process_key-IsShaped Key.last_update state v mfi h s = ok-IsShaped h s
process_key-IsShaped Key.mud_signature state v mfi h s = ok-IsShaped h s
process_key-IsShaped Key.cache_validity state v mfi h s = ok-IsShaped h s
process_key-IsShaped Key.is_supported state v mfi h s = ok-IsShaped h s
process_key-IsShaped Key.systeminfo state v mfi h s = ok-IsShaped h s
process_key-IsShaped Key.mfg_name state v mfi h s = ok-IsShaped h s
process_key-IsShaped Key.model_name state v mfi h s = ok-IsShaped h s
process_key-IsShaped Key.firmware_rev state v mfi h s = ok-IsShaped h s
process_key-IsShaped Key.software_rev state v mfi h s = ok-IsShaped h s
process_key-IsShaped Key.extensions state v mfi h s = ok-IsShaped h s
process_key-IsShaped Key.some_name state v mfi h s = set_name-IsShaped state v mfi h s
process_key-IsShaped Key.some_type state v mfi h s = set_type-IsShaped state v mfi h s
process_key-IsShaped Key.protocol state v mfi h s = update_ace-IsShaped _ mfi h s
process_key-IsShaped Key.dns_name state v mfi h s = update_ace-IsShaped _ mfi h s
process_key-IsShaped Key.port state v mfi h s = update_ace-IsShaped _ mfi h s
process_key-IsShaped Key.upper_port state v mfi h s = update_ace-IsShaped _ mfi h s
process_key-IsShaped Key.lower_port state v mfi h s = update_ace-IsShaped _ mfi h s
process_key-IsShaped Key.forwarding state v mfi h s = update_ace-IsShaped _ mfi h s
process_key-IsShaped Key.direction_initiated state v mfi h s = update_ace-IsShaped _ mfi h s
process_key-IsShaped Key.other_key state v mfi h s = ok-IsShaped h s

increment_state-IsShaped :
    (state : ParserState) (mfi : MudFileInfo) {mfi' : MudFileInfo}
    → increment_state state mfi ≡ ok mfi'
    → IsShaped mfi
    → IsShaped mfi'
unfolding increment_state
increment_state-IsShaped from_device_policy_state mfi h s = ok-IsShaped h s
increment_state-IsShaped to_device_policy_state mfi h s = ok-IsShaped h s
increment_state-IsShaped acl_state mfi h s =
    same_list (λ a. record a { ace_count = 0 }) (λ a. refl)
      (record mfi { acl_list_count = mfi.acl_list_count + 1 }) h s.0
increment_state-IsShaped aces_state mfi h s =
    same_list (λ a. record a { ace_count = a.ace_count + 1 }) (λ a. refl) mfi h s.0
increment_state-IsShaped root_state mfi h s = ok-IsShaped h s
increment_state-IsShaped ietf_mud_state mfi h s = ok-IsShaped h s
increment_state-IsShaped ietf_access_control_lists_state mfi h s = ok-IsShaped h s

-- one test on the key of an array
tested :
    (b : Bool) {o p : Outcome MudFileInfo} {mfi' : MudFileInfo}
    → (o ≡ ok mfi' → IsShaped mfi')
    → (p ≡ ok mfi' → IsShaped mfi')
    → (if b then o else p) ≡ ok mfi'
    → IsShaped mfi'
tested true f g h = f h
tested false f g h = g h

set_ace_type-IsShaped :
    (key : Bytes) (mfi : MudFileInfo) {mfi' : MudFileInfo}
    → set_ace_type key mfi ≡ ok mfi'
    → IsShaped mfi
    → IsShaped mfi'
unfolding set_ace_type
set_ace_type-IsShaped key mfi h s =
    tested (str_eq key (codes "ietf-mud:same-manufacturer")) (λ e. typed same_manufacturer e)
      (tested (str_eq key (codes "my-controller")) (λ e. typed my_controller e)
        (tested (str_eq key (codes "controller")) (λ e. typed controller e)
          (tested (str_eq key (codes "ietf-mud:local-networks")) (λ e. typed local_network e)
            (λ e. ok-IsShaped {m = mfi} e s))))
      h
  where
    typed :
        (type : AceType) {m : MudFileInfo}
        → update_ace (λ a. record a { ace_type = type }) mfi ≡ ok m
        → IsShaped m
    typed type e = update_ace-IsShaped (λ a. record a { ace_type = type }) mfi e s

module _ (jc : JsonC) where
  process_string-IsShaped :
      (key : Bytes) (val : Json) (state : ParserState) (mfi : MudFileInfo) {mfi' : MudFileInfo}
      → process_string jc key val state mfi ≡ ok mfi'
      → IsShaped mfi
      → IsShaped mfi'
  unfolding process_string
  process_string-IsShaped key val state mfi h s =
      process_key-IsShaped (key_of key) state (some (jc.get_string val)) mfi h s

  mutual
    unfolding process_json

    -- A scan that returns keeps the sizes of the arrays and the acls within theirs.
    pub process_json-IsShaped :
        (j : Json) (state : ParserState) (mfi : MudFileInfo) {mfi' : MudFileInfo}
        → process_json jc j state mfi ≡ ok mfi'
        → IsShaped mfi
        → IsShaped mfi'
    process_json-IsShaped (object fields) state mfi h s =
        process_fields-IsShaped fields state mfi h s
    process_json-IsShaped null state mfi h s = cc
    process_json-IsShaped (boolean b) state mfi h s = cc
    process_json-IsShaped (double t) state mfi h s = cc
    process_json-IsShaped (int t) state mfi h s = cc
    process_json-IsShaped (string t) state mfi h s = cc
    process_json-IsShaped (array items) state mfi h s = cc

    process_fields-IsShaped :
        (fields : Fields) (state : ParserState) (mfi : MudFileInfo) {mfi' : MudFileInfo}
        → process_fields jc fields state mfi ≡ ok mfi'
        → IsShaped mfi
        → IsShaped mfi'
    process_fields-IsShaped end state mfi h s = ok-IsShaped h s
    process_fields-IsShaped (field key val rest) state mfi h s =
        let (mfi'', e, e') =
          bind-eq-ok (process_value jc val key state mfi) (λ m. process_fields jc rest state m) h in
        process_fields-IsShaped rest state mfi'' e' (process_value-IsShaped val key state mfi e s)

    process_value-IsShaped :
        (val : Json) (key : Bytes) (state : ParserState) (mfi : MudFileInfo) {mfi' : MudFileInfo}
        → process_value jc val key state mfi ≡ ok mfi'
        → IsShaped mfi
        → IsShaped mfi'
    process_value-IsShaped null key state mfi h s = ok-IsShaped h s
    process_value-IsShaped (boolean b) key state mfi h s =
        process_string-IsShaped key (boolean b) state mfi h s
    process_value-IsShaped (double t) key state mfi h s =
        process_string-IsShaped key (double t) state mfi h s
    process_value-IsShaped (int t) key state mfi h s =
        process_string-IsShaped key (int t) state mfi h s
    process_value-IsShaped (string t) key state mfi h s =
        process_string-IsShaped key (string t) state mfi h s
    process_value-IsShaped (object fields) key state mfi h s =
        process_fields-IsShaped fields (new_state key state) mfi h s
    process_value-IsShaped (array items) key state mfi h s =
        let (mfi'', e, e') =
          bind-eq-ok (set_ace_type key mfi)
            (λ m.
              if str_eq (jc.get_string (array items)) lone_null_text
              then ok m
              else process_items jc items state m)
            h in
        let s' = set_ace_type-IsShaped key mfi e s in
        tested (str_eq (jc.get_string (array items)) lone_null_text)
          (λ d. ok-IsShaped {m = mfi''} d s') (λ d. process_items-IsShaped items state mfi'' d s')
          e'

    process_items-IsShaped :
        (items : Items) (state : ParserState) (mfi : MudFileInfo) {mfi' : MudFileInfo}
        → process_items jc items state mfi ≡ ok mfi'
        → IsShaped mfi
        → IsShaped mfi'
    process_items-IsShaped nil state mfi h s = ok-IsShaped h s
    process_items-IsShaped (cons item rest) state mfi h s =
        let (counted, e, e') =
          bind-eq-ok (increment_state state mfi)
            (λ m. process_json jc item state m >>= λ m'. process_items jc rest state m') h in
        let (m', d, d') =
          bind-eq-ok (process_json jc item state counted) (λ m'. process_items jc rest state m')
            e' in
        process_items-IsShaped rest state m' d'
          (process_json-IsShaped item state counted d (increment_state-IsShaped state mfi e s))
