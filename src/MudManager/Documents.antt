-- ===== src/MudManager/Documents.antt =====
-- Carrying out the MUD file of a document: the search for its acls, and when it ends.
use osmud.Prelude.{
  Bool, true, false, ◌&&◌, not, ◌||◌, none, some, Option, List, [], ◌∷◌, ◌++◌, map, ◌≡◌, refl, sym,
  ◌∙◌, length, ok, if◌then◌else◌, Bool-cases, inl, inr,
}
use osmud.CString.{Bytes, str_eq}
use osmud.MudParser.Info.{AceEntry, AclEntry, MudAccessList}
use osmud.MudParser.Document.{Rule, Acl, Document, ace_of, acl_of, access_of, info_of}
use osmud.MudParser.{find_acl, get_mud_file_acl}
use osmud.MudManager.Access.{is_acldns}
use osmud.MudManager.Ready.{aces_ready, names_ready, search_ready, mud_file_ready, is_some}
use osmud.MudManager.Commit.{names_found, acls_found, found-names}
use osmud.MudManager.Rules.{acl_found}
use mathlib.Core.Path.{ap₂}

-- The first acl of the document with a name.
unfoldable pub acl_named : Bytes → List Acl → Option Acl
acl_named name [] = none
acl_named name (a ∷ acls) =
    let rest = acl_named name acls in if str_eq a.name name then some a else rest

abbrev pub entry_of : Option Acl → Option AclEntry
entry_of none = none
entry_of (some a) = some (acl_of a)

find_acl-acl_named :
    (name : Bytes) (acls : List Acl) (blank : List AclEntry)
    → find_acl (length acls) (map acl_of acls ++ blank) name ≡ ok (entry_of (acl_named name acls))
unfolding find_acl acl_named
find_acl-acl_named name [] blank = refl
find_acl-acl_named name (a ∷ acls) blank = elim (Bool-cases (str_eq a.name name)) [
  | inl same ↦ rw same refl
  | inr other ↦ rw other (find_acl-acl_named name acls blank)
]

-- `getMudFileAcl` finds in the file of a document the entry of the first acl with the name.
pub get_mud_file_acl-info_of :
    (name : Bytes) (d : Document)
    → get_mud_file_acl (some name) (info_of d) ≡ ok (entry_of (acl_named name d.acls))
unfolding get_mud_file_acl info_of
get_mud_file_acl-info_of name d = find_acl-acl_named name d.acls _

or_true : (b : Bool) → (b || true) ≡ true
or_true true = refl
or_true false = refl

aces_ready-rules :
    (rules : List Rule) (blank : List AceEntry)
    → aces_ready (length rules) (map ace_of rules ++ blank) ≡ true
unfolding aces_ready
aces_ready-rules [] blank = refl
aces_ready-rules (r ∷ rules) blank =
    rw (or_true (not (is_acldns (ace_of r).ace_type))) (aces_ready-rules rules blank)

search_ready-entry_of : (a : Option Acl) → search_ready (ok (entry_of a)) ≡ true
search_ready-entry_of none = refl
search_ready-entry_of (some a) = aces_ready-rules a.rules _

names_ready-names :
    (d : Document) (names : List Bytes) (blank : List MudAccessList)
    → names_ready (info_of d) (length names) (map access_of names ++ blank) ≡ true
unfolding names_ready
names_ready-names d [] blank = refl
names_ready-names d (name ∷ names) blank =
    rw
      (
        get_mud_file_acl-info_of name d,
        search_ready-entry_of (acl_named name d.acls),
        names_ready-names d names blank,
      )
      refl

-- What is read when the file of a document is carried out is there.
pub info_of-ready : (d : Document) → mud_file_ready (info_of d) ≡ true
unfolding info_of
info_of-ready d = rw (names_ready-names d d.from_policy _, names_ready-names d d.to_policy _) refl

-- Each policy of the document names an acl of it.
abbrev pub is_listed : Document → Bytes → Bool
is_listed d name = is_some (acl_named name d.acls)

unfoldable pub all_listed : Document → List Bytes → Bool
all_listed d [] = true
all_listed d (name ∷ names) = is_listed d name && all_listed d names

acl_found-entry_of : (a : Option Acl) → acl_found (entry_of a) ≡ is_some a
acl_found-entry_of none = refl
acl_found-entry_of (some a) = refl

names_found-names :
    (d : Document) (names : List Bytes) (blank : List MudAccessList)
    → names_found (info_of d) (length names) (map access_of names ++ blank) ≡ all_listed d names
unfolding names_found all_listed
names_found-names d [] blank = refl
names_found-names d (name ∷ names) blank =
    sym (
      found-names (info_of d) (access_of name) (map access_of names ++ blank) (length names)
        (entry_of (acl_named name d.acls)) (get_mud_file_acl-info_of name d))
    ∙ ap₂ (λ b c. b && c) (acl_found-entry_of (acl_named name d.acls))
        (names_found-names d names blank)

-- The file has an acl for each name in its access lists exactly if the document has one for each
-- name in its policies.
pub acls_found-info_of :
    (d : Document)
    → acls_found (info_of d) ≡ (all_listed d d.from_policy && all_listed d d.to_policy)
unfolding info_of
acls_found-info_of d =
    rw (names_found-names d d.from_policy _, names_found-names d d.to_policy _) refl
