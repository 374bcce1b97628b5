-- ===== src/MudParser/Freed.antt =====
-- The strings that are freed for the file of a document.
use osmud.Prelude.{List, [], ◌∷◌, ◌++◌, map, ◌≡◌, refl, ap, ◌∙◌, Outcome, ok, length}
use osmud.CString.{Bytes}
use osmud.MudParser.Info.{MudAccessList, create_mfi}
use osmud.MudParser.Document.{
  Ports, any_port, one_port, port_range, Rule, Acl, Document, ace_of, acl_of, access_of, info_of,
}
use osmud.MudParser.Free.{
  safe_free, free_entries, free_access, free_ace, free_acl, free_texts, free_mud_file_info,
}

-- The strings that stand for the parts of a document.
unfoldable pub concat_map {ℓ} : {A : Type ℓ} → (A → List Bytes) → List A → List Bytes
concat_map f [] = []
concat_map f (a ∷ more) = f a ++ concat_map f more

abbrev pub lower_of : Ports → List Bytes
lower_of any_port = []
lower_of (one_port p) = p ∷ []
lower_of (port_range lower upper) = lower ∷ []

abbrev pub upper_of : Ports → List Bytes
upper_of any_port = []
upper_of (one_port p) = p ∷ []
upper_of (port_range lower upper) = upper ∷ []

abbrev pub texts_of_rule : Rule → List Bytes
texts_of_rule r =
    (r.forwarding ∷ r.host ∷ lower_of r.ports) ++ (r.protocol ∷ r.name ∷ upper_of r.ports)

abbrev pub texts_of_acl : Acl → List Bytes
texts_of_acl a = a.name ∷ a.kind ∷ concat_map texts_of_rule a.rules

unfoldable pub texts_of : Document → List Bytes
unfolding concat_map
texts_of d = d.version ∷ d.url ∷ (d.from_policy ++ d.to_policy ++ concat_map texts_of_acl d.acls)

free_entries-filled {ℓ κ} :
    {A : Type ℓ} {B : Type κ} (free : B → Outcome (List Bytes)) (entry : A → B)
    (texts : A → List Bytes) (rest : List B)
    → ((a : A) → free (entry a) ≡ ok (texts a))
    → (as' : List A)
    → free_entries free (length as') (map entry as' ++ rest) ≡ ok (concat_map texts as')
unfolding free_entries concat_map
free_entries-filled free entry texts rest h [] = refl
free_entries-filled free entry texts rest h (a ∷ more) =
    rw (h a, free_entries-filled free entry texts rest h more) refl

free_ace-ace_of : (r : Rule) → free_ace (ace_of r) ≡ ok (texts_of_rule r)
unfolding free_ace safe_free
free_ace-ace_of r = go r.ports
  where
    go :
        (p : Ports)
        → free_ace (ace_of (record r { ports = p })) ≡ ok (texts_of_rule (record r { ports = p }))
    go any_port = refl
    go (one_port q) = refl
    go (port_range lower upper) = refl

free_acl-acl_of : (a : Acl) → free_acl (acl_of a) ≡ ok (texts_of_acl a)
unfolding free_acl safe_free
free_acl-acl_of a =
    rw (free_entries-filled free_ace ace_of texts_of_rule _ free_ace-ace_of a.rules) refl

concat_names : (names : List Bytes) → concat_map (λ name. name ∷ []) names ≡ names
unfolding concat_map
concat_names [] = refl
concat_names (name ∷ more) = ap (◌∷◌ name) (concat_names more)

free_names :
    (names : List Bytes) (rest : List MudAccessList)
    → free_entries free_access (length names) (map access_of names ++ rest) ≡ ok names
unfolding free_access safe_free
free_names names rest =
    free_entries-filled free_access access_of (λ name. name ∷ []) rest (λ name. refl) names
    ∙ ap ok (concat_names names)

-- For the file of a document, the texts that are freed are exactly those of the document: its version
-- and URL, the names of its policies, and the names, kinds and rules of its acls, each once and in
-- the order of the arrays. No read is outside an array, and no entry behind a counter is freed.
pub free_mud_file_info-info_of : (d : Document) → free_mud_file_info (info_of d) ≡ ok (texts_of d)
unfolding free_mud_file_info free_texts safe_free info_of create_mfi texts_of
free_mud_file_info-info_of d =
    rw
      (
        free_names d.from_policy _,
        free_names d.to_policy _,
        free_entries-filled free_acl acl_of texts_of_acl _ free_acl-acl_of d.acls,
      )
      refl
