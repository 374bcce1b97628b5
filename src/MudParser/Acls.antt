-- ===== src/MudParser/Acls.antt =====
-- The scan of the acls of a document.
use osmud.Prelude.{◌≤◌, some, List, [], ◌∷◌, ◌≡◌, ◌≢◌, refl, ◌∙◌, length, replicate, ok, All}
use osmud.CString.{Bytes, codes, str_eq}
use osmud.MudParser.Values.{Json, null, array, end, field, nil, cons, JsonC}
use osmud.MudParser.Keys.{Key, key_of, new_state, acl_state, aces_state}
use osmud.MudParser.Info.{AclEntry, MudFileInfo, empty_acl, max_aces, max_acls}
use osmud.MudParser.Fill.{process_key, set_name, set_type, set_ace_type}
use osmud.MudParser.Document.{
  Acl, Rule, encode_items, encode_rule, encode_acl, encode_name, filled, acl_of,
}
use osmud.MudParser.Places.{at_acl, update_acl-at_acl, increment_state-acl}
use osmud.MudParser.Steps.{
  process_fields-string, process_fields-object, process_fields-array, process_fields-end,
  process_items-filled, process_json-object,
}
use osmud.MudParser.Rules.{process_rules}
use osmud.MudParser.{process_fields, process_items, process_json}

-- an array of objects is not the array of a lone null
pub encode_items-ne {ℓ} :
    {A : Type ℓ} (enc : A → Json)
    → ((a : A) → enc a ≢ null)
    → (xs : List A) → encode_items enc xs ≢ cons null nil
unfolding encode_items
encode_items-ne enc h [] = λ e. cc
encode_items-ne enc h (x ∷ xs) = λ e. h x (cc)

encode_rule-ne : (r : Rule) → encode_rule r ≢ null
unfolding encode_rule
encode_rule-ne r = λ e. cc

pub encode_acl-ne : (a : Acl) → encode_acl a ≢ null
unfolding encode_acl
encode_acl-ne a = λ e. cc

pub encode_name-ne : (n : Bytes) → encode_name n ≢ null
unfolding encode_name
encode_name-ne n = λ e. cc

module _ (jc : JsonC) where
  module _ (m : MudFileInfo) (before blank : List AclEntry) where
    abbrev named : Acl → AclEntry
    named a = record empty_acl { acl_name = some a.name; acl_type = some a.kind }

    process_aces :
        (a : Acl)
        → length a.rules ≤ max_aces
        → process_fields jc
            (field (codes "ace") (array (encode_items encode_rule a.rules)) end)
            aces_state
            (at_acl m before (named a) blank)
          ≡ ok (at_acl m before (acl_of a) blank)
    unfolding set_ace_type str_eq
    process_aces a h =
        process_fields-array jc (codes "ace") (encode_items encode_rule a.rules) aces_state
          (at_acl m before (named a) blank) refl
          (encode_items-ne encode_rule encode_rule-ne a.rules)
          (process_rules jc m before (named a) blank a.rules max_aces h)

    -- The scan of an acl fills the entry that it is at.
    process_acl :
        (a : Acl)
        → length a.rules ≤ max_aces
        → process_json jc (encode_acl a) acl_state (at_acl m before empty_acl blank)
          ≡ ok (at_acl m before (acl_of a) blank)
    unfolding encode_acl process_key set_name set_type new_state key_of str_eq
    process_acl a h =
        process_json-object jc _ acl_state (at_acl m before empty_acl blank)
        ∙ process_fields-string jc (codes "name") Key.some_name a.name _ acl_state
            (at_acl m before empty_acl blank) refl
            (update_acl-at_acl (λ b. ok (record b { acl_name = some a.name })) m before empty_acl
              blank refl)
        ∙ process_fields-string jc (codes "type") Key.some_type a.kind _ acl_state _ refl (
            update_acl-at_acl (λ b. ok (record b { acl_type = some a.kind })) m before
              (record empty_acl { acl_name = some a.name }) blank refl)
        ∙ process_fields-object jc (codes "aces") aces_state
            (field (codes "ace") (array (encode_items encode_rule a.rules)) end) end acl_state _
            refl (process_aces a h)
        ∙ process_fields-end jc acl_state _

  pub process_acls :
      (m : MudFileInfo) (acls : List Acl)
      → All (λ (a : Acl). length a.rules ≤ max_aces) acls
      → length acls ≤ max_acls
      → process_items jc
          (encode_items encode_acl acls)
          acl_state
          (record m { acls = replicate max_acls empty_acl; acl_list_count = 0 })
        ≡ ok (record m {
          acls = filled max_acls empty_acl acl_of acls;
          acl_list_count = length acls;
        })
  process_acls m acls p h =
      process_items-filled jc acl_state
        (λ as' count. record m { acls = as'; acl_list_count = count }) empty_acl encode_acl acl_of
        (λ a. length a.rules ≤ max_aces)
        (λ a q before room.
          (_, increment_state-acl m before empty_acl room, process_acl m before room a q))
        acls max_acls p h
