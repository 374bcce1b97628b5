-- ===== src/MudParser/RoundTrip.antt =====
-- The scan of a whole document.
use osmud.Prelude.{some, List, ◌∷◌, ◌≡◌, refl, ◌∙◌, length, ok}
use osmud.CString.{Bytes, codes, str_eq}
use osmud.Outside.{Env, Effect, read_file}
use osmud.MudParser.Values.{int, string, Fields, end, field, JsonC}
use osmud.MudParser.Keys.{
  Key, key_of, new_state, root_state, ietf_mud_state, acl_state, from_device_policy_state,
  to_device_policy_state,
}
use osmud.MudParser.Info.{MudFileInfo, empty_access, create_mfi, max_device_policies}
use osmud.MudParser.Fill.{process_key, set_ace_type}
use osmud.MudParser.Document.{
  Document, Fits, encode_items, encode_acl, encode_policy, encode, filled, access_of, info_of,
}
use osmud.MudParser.Steps.{
  process_fields-string, process_fields-int, process_fields-object, process_fields-array,
  process_fields-end, process_json-object,
}
use osmud.MudParser.{process_fields, process_json, parse_mud_file, parse_text, c_text}
use osmud.MudParser.Acls.{encode_acl-ne, encode_items-ne, process_acls}
use osmud.MudParser.Policies.{process_from_policy, process_to_policy}

module _ (jc : JsonC) where
  abbrev mud_fields : Document → Fields
  mud_fields d = field (codes "mud-version") (int d.version) (
      field (codes "mud-url") (string d.url) (
        field (codes "from-device-policy") (encode_policy d.from_policy)
          (field (codes "to-device-policy") (encode_policy d.to_policy) end)))

  -- the file after the part "ietf-mud:mud"
  abbrev policies_of : Document → MudFileInfo
  policies_of d = record create_mfi {
    mud_version = some d.version;
    mud_url = some d.url;
    from_access_list = filled max_device_policies empty_access access_of d.from_policy;
    from_access_list_count = length d.from_policy;
    to_access_list = filled max_device_policies empty_access access_of d.to_policy;
    to_access_list_count = length d.to_policy;
  }

  process_mud :
      (d : Document)
      → Fits d
      → process_fields jc (mud_fields d) ietf_mud_state create_mfi ≡ ok (policies_of d)
  unfolding encode_policy process_key new_state key_of str_eq create_mfi
  process_mud d fits =
      process_fields-int jc (codes "mud-version") Key.mud_version d.version _ ietf_mud_state
        create_mfi refl refl
      ∙ process_fields-string jc (codes "mud-url") Key.mud_url d.url _ ietf_mud_state _ refl refl
      ∙ process_fields-object jc (codes "from-device-policy") from_device_policy_state _ _
          ietf_mud_state _ refl
          (process_from_policy jc
            (record create_mfi { mud_version = some d.version; mud_url = some d.url }) d.from_policy
            fits.from_fits)
      ∙ process_fields-object jc (codes "to-device-policy") to_device_policy_state _ _
          ietf_mud_state _ refl
          (process_to_policy jc
            (record create_mfi {
              mud_version = some d.version;
              mud_url = some d.url;
              from_access_list = filled max_device_policies empty_access access_of d.from_policy;
              from_access_list_count = length d.from_policy;
            })
            d.to_policy fits.to_fits)
      ∙ process_fields-end jc ietf_mud_state _

  -- The scan of a document that is within the bounds gives the file that stands for it.
  pub process_json-encode :
      (d : Document) → Fits d → process_json jc (encode d) root_state create_mfi ≡ ok (info_of d)
  unfolding encode info_of new_state str_eq set_ace_type create_mfi
  process_json-encode d fits =
      process_json-object jc _ root_state create_mfi
      ∙ process_fields-object jc (codes "ietf-mud:mud") ietf_mud_state (mud_fields d) _ root_state
          create_mfi refl (process_mud d fits)
      ∙ process_fields-object jc (codes "ietf-access-control-list:acls") acl_state _ end root_state
          _ refl
          (process_fields-array jc (codes "acl") (encode_items encode_acl d.acls) acl_state
            (policies_of d) refl (encode_items-ne encode_acl encode_acl-ne d.acls)
            (process_acls jc (policies_of d) d.acls fits.rules_fit fits.acls_fit))
      ∙ process_fields-end jc root_state _

  -- The parse of a file that holds a document within the bounds of the arrays returns the
  -- `MudFileInfo` that stands for the document: its policies, acls and rules, each with its texts, in
  -- their order, and blank entries behind them.
  pub parse_mud_file-encode :
      (env : Env) (file text : Bytes) (t : List Effect) (d : Document)
      → Fits d
      → env.contents t file ≡ some text
      → jc.tokener_parse (c_text text) ≡ encode d
      → parse_mud_file env jc (some file) t ≡ ok (some (info_of d), read_file file ∷ t)
  unfolding parse_mud_file parse_text
  parse_mud_file-encode env file text t d fits found parsed =
      rw (found, parse_text) (rw (parsed, process_json-encode d fits) refl)
