-- ===== src/MudParser/Policies.antt =====
-- The scan of the policies of a document.
use osmud.Prelude.{◌≤◌, some, List, ◌≡◌, refl, ◌∙◌, length, replicate, ok, All-Unit}
use osmud.CString.{Bytes, codes, str_eq}
use osmud.MudParser.Values.{object, array, Fields, end, field, JsonC}
use osmud.MudParser.Keys.{Key, key_of, new_state, from_device_policy_state, to_device_policy_state}
use osmud.MudParser.Info.{MudAccessList, MudFileInfo, empty_access, max_device_policies}
use osmud.MudParser.Fill.{process_key, set_name, set_ace_type}
use osmud.MudParser.Document.{encode_items, encode_name, filled, access_of}
use osmud.MudParser.Places.{
  at_from, at_to, update_from-at_from, update_to-at_to, increment_state-from, increment_state-to,
}
use osmud.MudParser.Steps.{
  process_fields-string, process_fields-object, process_fields-array, process_fields-end,
  process_items-filled, process_json-object,
}
use osmud.MudParser.{process_fields, process_json}
use osmud.MudParser.Acls.{encode_items-ne, encode_name-ne}

module _ (jc : JsonC) where
  process_from_name :
      (m : MudFileInfo) (before blank : List MudAccessList) (name : Bytes)
      → process_json jc
          (encode_name name)
          from_device_policy_state
          (at_from m before empty_access blank)
        ≡ ok (at_from m before (access_of name) blank)
  unfolding encode_name process_key set_name key_of str_eq
  process_from_name m before blank name =
      process_json-object jc _ from_device_policy_state (at_from m before empty_access blank)
      ∙ process_fields-string jc (codes "name") Key.some_name name end from_device_policy_state
          (at_from m before empty_access blank) refl
          (update_from-at_from (λ b. record b { acl_name = some name }) m before empty_access blank)
      ∙ process_fields-end jc from_device_policy_state _

  process_to_name :
      (m : MudFileInfo) (before blank : List MudAccessList) (name : Bytes)
      → process_json jc
          (encode_name name)
          to_device_policy_state
          (at_to m before empty_access blank)
        ≡ ok (at_to m before (access_of name) blank)
  unfolding encode_name process_key set_name key_of str_eq
  process_to_name m before blank name =
      process_json-object jc _ to_device_policy_state (at_to m before empty_access blank)
      ∙ process_fields-string jc (codes "name") Key.some_name name end to_device_policy_state
          (at_to m before empty_access blank) refl
          (update_to-at_to (λ b. record b { acl_name = some name }) m before empty_access blank)
      ∙ process_fields-end jc to_device_policy_state _

  abbrev pub policy_fields : List Bytes → Fields
  policy_fields names = field (codes "access-list") (array (encode_items encode_name names)) end

  pub process_from_policy :
      (m : MudFileInfo) (names : List Bytes)
      → length names ≤ max_device_policies
      → process_fields jc
          (field (codes "access-lists") (object (policy_fields names)) end)
          from_device_policy_state
          (record m {
            from_access_list = replicate max_device_policies empty_access;
            from_access_list_count = 0;
          })
        ≡ ok (record m {
          from_access_list = filled max_device_policies empty_access access_of names;
          from_access_list_count = length names;
        })
  unfolding set_ace_type str_eq new_state
  process_from_policy m names h =
      process_fields-object jc (codes "access-lists") from_device_policy_state (policy_fields names)
        end from_device_policy_state _ refl
        (process_fields-array jc (codes "access-list") (encode_items encode_name names)
          from_device_policy_state _ refl (encode_items-ne encode_name encode_name-ne names)
          (process_items-filled jc from_device_policy_state
            (λ as' count. record m { from_access_list = as'; from_access_list_count = count })
            empty_access encode_name access_of (λ name. Unit)
            (λ name _ before room. (
              _,
              increment_state-from m before empty_access room,
              process_from_name m before room name,
            ))
            names max_device_policies (All-Unit names) h))
      ∙ process_fields-end jc from_device_policy_state _

  pub process_to_policy :
      (m : MudFileInfo) (names : List Bytes)
      → length names ≤ max_device_policies
      → process_fields jc
          (field (codes "access-lists") (object (policy_fields names)) end)
          to_device_policy_state
          (record m {
            to_access_list = replicate max_device_policies empty_access;
            to_access_list_count = 0;
          })
        ≡ ok (record m {
          to_access_list = filled max_device_policies empty_access access_of names;
          to_access_list_count = length names;
        })
  unfolding set_ace_type str_eq new_state
  process_to_policy m names h =
      process_fields-object jc (codes "access-lists") to_device_policy_state (policy_fields names)
        end to_device_policy_state _ refl
        (process_fields-array jc (codes "access-list") (encode_items encode_name names)
          to_device_policy_state _ refl (encode_items-ne encode_name encode_name-ne names)
          (process_items-filled jc to_device_policy_state
            (λ as' count. record m { to_access_list = as'; to_access_list_count = count })
            empty_access encode_name access_of (λ name. Unit)
            (λ name _ before room. (
              _,
              increment_state-to m before empty_access room,
              process_to_name m before room name,
            ))
            names max_device_policies (All-Unit names) h))
      ∙ process_fields-end jc to_device_policy_state _
