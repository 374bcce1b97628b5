-- ===== src/MudParser/Steps.antt =====
-- Single steps of the scan, and its writes to the entries that it is at.
use osmud.Prelude.{
  map, replicate, All, arith, ◌≤◌, length-append, ℕ, zero, suc, ◌+◌, some, List, [], ◌∷◌, ◌++◌, ◌≡◌,
  ◌≢◌, refl, sym, ap, ◌∙◌, length, ok, false, Bool-cases, inl, inr,
}
use osmud.CString.{Bytes, str_eq}
use osmud.CString.Laws.{str_eq_iff}
use osmud.MudParser.Values.{
  Json, null, int, string, object, array, Fields, end, field, Items, nil, cons, JsonC,
  lone_null_text,
}
use osmud.MudParser.Keys.{Key, key_of, ParserState, new_state}
use osmud.MudParser.Info.{MudFileInfo}
use osmud.MudParser.Fill.{process_key, increment_state, set_ace_type}
use mathlib.Core.List.{append_assoc}
use mathlib.Core.Path.{ap₂}
use osmud.MudParser.Document.{encode_items, filled}
use osmud.MudParser.{process_fields, process_items, process_json, process_string}

module _ (jc : JsonC) where
  -- a member with a string
  pub process_fields-string :
      (key : Bytes) (k : Key) (s : Bytes) (rest : Fields) (state : ParserState) (m : MudFileInfo)
      {m' : MudFileInfo}
      → key_of key ≡ k
      → process_key k state (some s) m ≡ ok m'
      → process_fields jc (field key (string s) rest) state m ≡ process_fields jc rest state m'
  unfolding process_json process_string
  process_fields-string key k s rest state m e h = rw (e, jc.get_string-string s, h) refl

  pub process_fields-int :
      (key : Bytes) (k : Key) (s : Bytes) (rest : Fields) (state : ParserState) (m : MudFileInfo)
      {m' : MudFileInfo}
      → key_of key ≡ k
      → process_key k state (some s) m ≡ ok m'
      → process_fields jc (field key (int s) rest) state m ≡ process_fields jc rest state m'
  unfolding process_json process_string
  process_fields-int key k s rest state m e h = rw (e, jc.get_string-int s, h) refl

  pub process_fields-end :
      (state : ParserState) (m : MudFileInfo) → process_fields jc end state m ≡ ok m
  unfolding process_json
  process_fields-end state m = refl

  pub process_items-nil :
      (state : ParserState) (m : MudFileInfo) → process_items jc nil state m ≡ ok m
  unfolding process_json
  process_items-nil state m = refl

  pub process_json-object :
      (fields : Fields) (state : ParserState) (m : MudFileInfo)
      → process_json jc (object fields) state m ≡ process_fields jc fields state m
  unfolding process_json
  process_json-object fields state m = refl

  -- a member with an object
  pub process_fields-object :
      (key : Bytes) (state' : ParserState) (fields rest : Fields) (state : ParserState)
      (m : MudFileInfo) {m' : MudFileInfo}
      → new_state key state ≡ state'
      → process_fields jc fields state' m ≡ ok m'
      → process_fields jc (field key (object fields) rest) state m ≡ process_fields jc rest state m'
  unfolding process_json
  process_fields-object key state' fields rest state m e h = rw (e, h) refl

  -- the last member, with an array
  pub process_fields-array :
      (key : Bytes) (items : Items) (state : ParserState) (m : MudFileInfo) {m' : MudFileInfo}
      → set_ace_type key m ≡ ok m
      → items ≢ cons null nil
      → process_items jc items state m ≡ ok m'
      → process_fields jc (field key (array items) end) state m ≡ ok m'
  unfolding process_json
  process_fields-array key items state m e ne h = rw (e, other, h) refl
    where
      other : str_eq (jc.get_string (array items)) lone_null_text ≡ false
      other = elim (Bool-cases (str_eq (jc.get_string (array items)) lone_null_text)) [
        | inl same ↦ absurd (
            ne (
              (jc.lone_null items).0
                ((str_eq_iff (jc.get_string (array items)) lone_null_text).0 same)))
        | inr differ ↦ differ
      ]

  -- the next element of an array
  pub process_items-cons :
      (item : Json) (rest : Items) (state : ParserState) (m : MudFileInfo)
      {counted m' : MudFileInfo}
      → increment_state state m ≡ ok counted
      → process_json jc item state counted ≡ ok m'
      → process_items jc (cons item rest) state m ≡ process_items jc rest state m'
  unfolding process_json
  process_items-cons item rest state m e h = rw (e, h) refl

  -- An array whose elements each fill the blank entry behind a counter: `put` writes the entries
  -- and the counter. The scan fills an entry for each element, where there is room for them.
  module _ {ℓ κ} {A : Type ℓ} {B : Type 0} (state : ParserState) (put : List B → ℕ → MudFileInfo)
      (blank : B) (enc : A → Json) (entry : A → B) (P : A → Type κ) where
    abbrev FillsOne : Type (ℓ ⊔ κ)
    FillsOne =
        (a : A)
        → P a
        → (before room : List B)
        → (counted : MudFileInfo) × (increment_state state
              (put (before ++ (blank ∷ room)) (length before))
            ≡ ok counted)
          × (process_json jc (enc a) state counted
              ≡ ok (put (before ++ (entry a ∷ room)) (suc (length before))))

    fill_items :
        FillsOne
        → (as' : List A) (before : List B) (room : ℕ) → All P as'
        → length as' ≤ room
        → process_items jc
            (encode_items enc as')
            state
            (put (before ++ replicate room blank) (length before))
          ≡ ok (put (before ++ filled room blank entry as') (length before + length as'))
    unfolding encode_items
    fill_items one [] before room p h =
        process_items-nil state _
        ∙ ap₂ (λ k n. ok (put (before ++ replicate k blank) n)) (omega arith) (omega arith)
    fill_items one (a ∷ as') before zero p h = absurd (omega arith)
    fill_items one (a ∷ as') before (suc room) p h =
        let (counted, e, d) = one a p.0 before (replicate room blank) in
        process_items-cons (enc a) (encode_items enc as') state _ e d
        ∙ ap₂ (λ bs n. process_items jc (encode_items enc as') state (put bs n))
            (sym (append_assoc before (entry a ∷ []) (replicate room blank)))
            (omega (arith, length-append before (entry a ∷ [])))
        ∙ fill_items one as' (before ++ (entry a ∷ [])) room p.1 (omega arith)
        ∙ ap₂ (λ bs n. ok (put bs n))
            (append_assoc before (entry a ∷ []) (filled room blank entry as')
              ∙ ap (λ k. before ++ (entry a ∷ (map entry as' ++ replicate k blank))) (omega arith))
            (omega (arith, length-append before (entry a ∷ [])))

    pub process_items-filled :
        FillsOne
        → (as' : List A) (room : ℕ) → All P as'
        → length as' ≤ room
        → process_items jc (encode_items enc as') state (put (replicate room blank) 0)
          ≡ ok (put (filled room blank entry as') (length as'))
    process_items-filled one as' room p h =
        fill_items one as' [] room p h
        ∙ ap (λ n. ok (put (filled room blank entry as') n)) (omega arith)
