-- ===== src/MudParser.antt =====
-- src/mudparser.c: the scan of a MUD file into a `MudFileInfo`. `context` and `level` serve debug
-- output only and are left out; the copies of texts are the texts.
pub mod Values
pub mod Keys
pub mod Info
pub mod Fill
pub mod Shape
pub mod Scan
pub mod Lookup
pub mod Document
pub mod Places
pub mod Steps
pub mod Rules
pub mod Acls
pub mod Policies
pub mod RoundTrip
pub mod Free
pub mod Freed
use osmud.Prelude.{
  ℕ, zero, suc, Option, none, some, List, [], ◌∷◌, Outcome, ok, fault, ◌>>=◌, null_dereference,
  out_of_bounds, if◌then◌else◌, ◌==◌,
}
use osmud.CString.{Bytes, str_eq}
use osmud.Outside
use osmud.Outside.{Exec, Env}
use osmud.MudParser.Values.{
  Json, null, boolean, double, int, string, object, array, Fields, end, field, Items, nil, cons,
  JsonC, lone_null_text,
}
use osmud.MudParser.Keys.{key_of, ParserState, root_state, new_state}
use osmud.MudParser.Info.{AclEntry, MudFileInfo, create_mfi}
use osmud.MudParser.Fill.{process_key, increment_state, set_ace_type}

module _ (jc : JsonC) where
  unfoldable pub process_string : Bytes → Json → ParserState → MudFileInfo → Outcome MudFileInfo
  process_string key val state mfi = process_key (key_of key) state (some (jc.get_string val)) mfi

  -- `processJson`, its `switch` on the type of a member, and its two loops. The loop over the
  -- members reads through the table of an object, which nothing else has.
  unfoldable mutual
    pub process_json : Json → ParserState → MudFileInfo → Outcome MudFileInfo
    process_json (object fields) state mfi = process_fields fields state mfi
    process_json _ state mfi = fault null_dereference

    pub process_fields : Fields → ParserState → MudFileInfo → Outcome MudFileInfo
    process_fields end state mfi = ok mfi
    process_fields (field key val rest) state mfi = do
      mfi' ← process_value val key state mfi
      process_fields rest state mfi'

    pub process_value : Json → Bytes → ParserState → MudFileInfo → Outcome MudFileInfo
    process_value null key state mfi = ok mfi
    process_value (boolean b) key state mfi = process_string key (boolean b) state mfi
    process_value (double t) key state mfi = process_string key (double t) state mfi
    process_value (int t) key state mfi = process_string key (int t) state mfi
    process_value (string s) key state mfi = process_string key (string s) state mfi
    process_value (object fields) key state mfi = process_fields fields (new_state key state) mfi
    process_value (array items) key state mfi = do
      mfi' ← set_ace_type key mfi
      if str_eq (jc.get_string (array items)) lone_null_text
          then ok mfi'
          else process_items items state mfi'

    pub process_items : Items → ParserState → MudFileInfo → Outcome MudFileInfo
    process_items nil state mfi = ok mfi
    process_items (cons item rest) state mfi = do
      counted ← increment_state state mfi
      mfi' ← process_json item state counted
      process_items rest state mfi'

-- the first acl with the name among the first `count`
unfoldable pub find_acl : ℕ → List AclEntry → Bytes → Outcome (Option AclEntry)
find_acl zero acls name = ok none
find_acl (suc n) [] name = fault out_of_bounds
find_acl (suc n) (acl ∷ acls) name =
    let rest = find_acl n acls name in
    elim acl.acl_name [
      | none ↦ fault null_dereference
      | some s ↦ if str_eq s name then ok (some acl) else rest
    ]

unfoldable pub get_mud_file_acl : Option Bytes → MudFileInfo → Outcome (Option AclEntry)
unfolding find_acl
get_mud_file_acl none mud_file = ok none
get_mud_file_acl (some acl_name) mud_file = find_acl mud_file.acl_list_count mud_file.acls acl_name

-- the text up to the first NUL byte
unfoldable pub c_text : Bytes → Bytes
c_text [] = []
c_text (c ∷ cs) = let rest = c_text cs in if c == 0 then [] else c ∷ rest

module _ (env : Env) (jc : JsonC) where
  -- `readFileToString`
  unfoldable pub read_file_to_string : Option Bytes → Exec (Option Bytes)
  read_file_to_string none = Outside.pure none
  read_file_to_string (some file) = Outside.load_file env file

  -- `json_tokener_parse` reads through its argument.
  unfoldable pub parse_text : Option Bytes → Outcome MudFileInfo
  unfolding c_text
  parse_text none = fault null_dereference
  parse_text (some text) = process_json jc (jc.tokener_parse (c_text text)) root_state create_mfi

  unfoldable pub parse_mud_file : Option Bytes → Exec (Option MudFileInfo)
  unfolding read_file_to_string parse_text
  parse_mud_file file t = do
    (text, t') ← read_file_to_string file t
    mfi ← parse_text text
    ok (some mfi, t')
