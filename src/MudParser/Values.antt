-- ===== src/MudParser/Values.antt =====
-- JSON values as json-c hands them over. A JSON null, and the result of a parse that failed, is the
-- pointer NULL, so both are `null`. `double` and `int` hold the text that json-c prints for the
-- number.
use osmud.Prelude.{Bool, ◌≡◌, ◌↔◌}
use osmud.CString.{Bytes, codes}

mutual
  pub data Json : Type 0 where
    null : Json
    boolean : Bool → Json
    double : Bytes → Json
    int : Bytes → Json
    string : Bytes → Json
    object : Fields → Json
    array : Items → Json

  pub data Fields : Type 0 where
    end : Fields
    field : Bytes → Json → Fields → Fields

  pub data Items : Type 0 where
    nil : Items
    cons : Json → Items → Items

-- "[ null ]"
abbrev pub lone_null_text : Bytes
lone_null_text = codes "[ null ]"

-- The functions of json-c that the parser calls, and what their documentation says of them.
pub record JsonC : Type 0 where
  -- `json_tokener_parse`
  pub tokener_parse : Bytes → Json
  -- `json_object_get_string`
  pub get_string : Json → Bytes
  -- a string is returned as it is, and a number as its text
  pub get_string-string : (s : Bytes) → get_string (string s) ≡ s
  pub get_string-int : (s : Bytes) → get_string (int s) ≡ s
  -- of all arrays the one with a null as its only element is printed "[ null ]"
  pub lone_null : (xs : Items) → (get_string (array xs) ≡ lone_null_text) ↔ (xs ≡ cons null nil)
