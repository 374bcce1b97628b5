-- ===== src/Tests/Parser.antt =====
-- A parse of a document.
use osmud.Prelude.{
  fault, zero, suc, take, map, ℕ, Option, some, List, [], ◌∷◌, ◌≡◌, refl, Outcome, ok,
}
use osmud.CString.{Bytes, codes, str_eq}
use osmud.Outside.{Effect, read_file}
use osmud.MudParser.Info.{MudFileInfo, create_mfi}
use osmud.MudParser.Keys.{root_state, key_of, new_state}
use osmud.MudParser.Fill.{
  process_key, increment_state, set_ace_type, modify_at, modify_last, update_acl, update_ace,
  update_from, update_to, set_name, set_type,
}
use osmud.MudParser.Shape.{HasRoom, IsShaped}
use osmud.MudParser.Values.{Json, object, array, Items, nil, cons, field, end}
use osmud.MudParser.Lookup.{Finds, parse_mud_file-IsShaped, get_mud_file_acl-parse_mud_file}
use osmud.MudParser.{process_json, process_string, get_mud_file_acl, parse_mud_file}
use osmud.Tests.Samples.{calm, json_c, member, value_text}

abbrev file : Bytes
file = codes "/var/mud/pi.json"

parsed : Outcome (Option MudFileInfo × List Effect)
unfolding parse_mud_file process_json process_string process_key increment_state set_ace_type
    modify_at modify_last update_acl update_ace update_from update_to set_name set_type key_of
    new_state str_eq create_mfi value_text
parsed = parse_mud_file calm json_c (some file) []

abbrev file_of : Outcome (Option MudFileInfo × List Effect) → MudFileInfo
file_of (ok (some m, t)) = m
file_of _ = create_mfi

is_parsed :
    parse_mud_file calm json_c (some file) [] ≡ ok (some (file_of parsed), read_file file ∷ [])
unfolding parsed parse_mud_file process_json process_string process_key increment_state set_ace_type
    modify_at modify_last update_acl update_ace update_from update_to set_name set_type key_of
    new_state str_eq create_mfi value_text
is_parsed = refl

parse_mud_file-IsShaped_example :
    (mud_file : MudFileInfo) × (◌≡◌ {A = Option MudFileInfo}
      (some (file_of parsed))
      (some mud_file))
    × (◌≡◌ {A = List Effect} (read_file file ∷ []) (read_file file ∷ []))
    × IsShaped mud_file
parse_mud_file-IsShaped_example = parse_mud_file-IsShaped calm json_c file [] is_parsed

get_mud_file_acl-parse_mud_file_example :
    Finds HasRoom
      (codes "to")
      (file_of parsed).acl_list_count
      (file_of parsed).acls
      (get_mud_file_acl (some (codes "to")) (file_of parsed))
get_mud_file_acl-parse_mud_file_example =
    get_mud_file_acl-parse_mud_file calm json_c file (codes "to") [] is_parsed

empty_aces : ℕ → Items
empty_aces zero = nil
empty_aces (suc n) = cons (object end) (empty_aces n)

-- an acl whose aces are as many empty objects
crowded_acl : ℕ → Json
unfolding empty_aces
crowded_acl n = object (
    field (codes "ietf-access-control-list:access-lists")
      (member (codes "acl")
        (array (cons (member (codes "aces") (member (codes "ace") (array (empty_aces n)))) nil)))
      end)

abbrev counts_of : Outcome MudFileInfo → List ℕ
counts_of (ok m) = map (λ a. a.ace_count) (take 1 m.acls)
counts_of (fault e) = []

-- An empty object is counted as an ace and stores nothing, so the counter leaves the array.
uncounted_run : counts_of (process_json json_c (crowded_acl 51) root_state create_mfi) ≡ 51 ∷ []
unfolding crowded_acl empty_aces process_json process_string process_key increment_state
    set_ace_type modify_at modify_last update_acl update_ace update_from update_to set_name set_type
    key_of new_state str_eq create_mfi value_text
uncounted_run = refl
