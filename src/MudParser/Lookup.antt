-- ===== src/MudParser/Lookup.antt =====
-- What `parseMudFile` returns, and what `getMudFileAcl` finds in it.
use osmud.Prelude.{
  take, get_elem?, ◌≢◌, ◌<◌, ap, ℕ, zero, suc, ◌≤◌, Option, none, some, List, [], ◌∷◌, ◌≡◌, refl,
  sym, ◌∙◌, arith, Outcome, ok, fault, bind-eq-ok, length, All, if◌then◌else◌, null_dereference,
  Bool-cases, inl, inr,
}
use mathlib.Core.Path.{subst}
use osmud.CString.{Bytes, str_eq}
use osmud.CString.Laws.{str_eq_iff}
use osmud.Outside.{Env, Effect, ok-pair, read_file}
use osmud.MudParser.Values.{JsonC}
use osmud.MudParser.Keys.{root_state}
use osmud.MudParser.Info.{AclEntry, MudFileInfo, create_mfi}
use osmud.MudParser.Shape.{HasRoom, IsShaped}
use osmud.MudParser.Scan.{process_json-IsShaped}
use osmud.MudParser.{find_acl, get_mud_file_acl, parse_mud_file, parse_text, c_text}

create_mfi-IsShaped : IsShaped create_mfi
unfolding create_mfi
create_mfi-IsShaped = (
  record {
    from_size = refl;
    to_size = refl;
    acls_size = refl;
    rooms = (refl, (refl, (refl, (refl, (refl, (refl, (refl, (refl, (refl, (refl, tt))))))))));
  },
  omega arith,
)

-- One of the first `n` acls with a property.
pub record Among (Q : AclEntry → Type 0) (n : ℕ) (acls : List AclEntry) : Type 0 where
  pub index : ℕ
  pub below : index < n
  pub acl : AclEntry
  pub stands : get_elem? acls index ≡ some acl
  pub has : Q acl

Among-suc :
    {Q : AclEntry → Type 0} {n : ℕ} {acls : List AclEntry} (a : AclEntry)
    → Among Q n acls
    → Among Q (suc n) (a ∷ acls)
Among-suc a m = record {
  index = suc m.index;
  below = omega (arith, m.below);
  acl = m.acl;
  stands = m.stands;
  has = m.has;
}

Among-zero :
    {Q : AclEntry → Type 0} (n : ℕ) (a : AclEntry) (acls : List AclEntry)
    → Q a
    → Among Q (suc n) (a ∷ acls)
Among-zero n a acls q = record { index = 0; below = omega arith; acl = a; stands = refl; has = q }

-- What a search for an acl among the first `n` may come to: it finds one of them that has the name
-- and a property that all acls have; or none of them has the name; or it compares with the name of
-- one of them, and that is NULL.
abbrev pub Finds :
    (AclEntry → Type 0) → Bytes → ℕ → List AclEntry → Outcome (Option AclEntry) → Type 0
Finds P name n acls (ok (some acl)) = Among (λ a. (a ≡ acl) × (a.acl_name ≡ some name) × P a) n acls
Finds P name n acls (ok none) = All (λ a. a.acl_name ≢ some name) (take n acls)
Finds P name n acls (fault e) = (e ≡ null_dereference) × Among (λ a. a.acl_name ≡ none) n acls

Finds-later :
    (P : AclEntry → Type 0) (name : Bytes) (n : ℕ) (a : AclEntry) (acls : List AclEntry)
    → a.acl_name ≢ some name
    → (found : Outcome (Option AclEntry)) → Finds P name n acls found
    → Finds P name (suc n) (a ∷ acls) found
Finds-later P name n a acls other (ok (some acl)) h = Among-suc a h
Finds-later P name n a acls other (ok none) h = (other, h)
Finds-later P name n a acls other (fault e) h = (h.0, Among-suc a h.1)

find_acl-Finds :
    (P : AclEntry → Type 0) (name : Bytes) (n : ℕ) (acls : List AclEntry)
    → n ≤ length acls
    → All P acls
    → Finds P name n acls (find_acl n acls name)
unfolding find_acl
find_acl-Finds P name zero acls h p = tt
find_acl-Finds P name (suc n) [] h p = absurd (omega arith)
find_acl-Finds P name (suc n) (acl ∷ acls) h p =
    let rest = find_acl-Finds P name n acls (omega arith) p.1 in
    go acl.acl_name refl (find_acl n acls name) rest
  where
    go :
        (o : Option Bytes)
        → acl.acl_name ≡ o
        → (later : Outcome (Option AclEntry)) → Finds P name n acls later
        → Finds P name (suc n) (acl ∷ acls) (elim o [
          | none ↦ fault null_dereference
          | some s ↦ if str_eq s name then ok (some acl) else later
        ])
    go none e later found = (refl, Among-zero n acl acls e)
    go (some s) e later found = elim (Bool-cases (str_eq s name)) [
      | inl same ↦
          rw same (Among-zero n acl acls (refl, e ∙ ap some ((str_eq_iff s name).0 same), p.0))
      | inr other ↦ rw other (
          Finds-later P name n acl acls
            (λ named. let same : s ≡ name = cc in let yes = (str_eq_iff s name).1 same in cc) later
            found)
    ]

module _ (env : Env) (jc : JsonC) where
  -- A parse that returns gives a MUD file whose arrays have the sizes of the source and whose acls
  -- stay within their array. It read one file, and gives no NULL.
  pub parse_mud_file-IsShaped :
      (file : Bytes) (t : List Effect) {m : Option MudFileInfo} {t' : List Effect}
      → parse_mud_file env jc (some file) t ≡ ok (m, t')
      → (mud_file : MudFileInfo) × (m ≡ some mud_file)
        × (t' ≡ read_file file ∷ t)
        × IsShaped mud_file
  unfolding parse_mud_file parse_text
  parse_mud_file-IsShaped file t h =
      let (mfi, parsed, e) =
        bind-eq-ok (parse_text env jc (env.contents t file))
          (λ mfi. ok (some mfi, read_file file ∷ t)) h in
      (mfi, (ok-pair e).0, (ok-pair e).1, parse_text-IsShaped (env.contents t file) parsed)
    where
      parse_text-IsShaped :
          (text : Option Bytes) {mfi : MudFileInfo} → parse_text env jc text ≡ ok mfi → IsShaped mfi
      parse_text-IsShaped none d = cc
      parse_text-IsShaped (some text) d =
          process_json-IsShaped jc (jc.tokener_parse (c_text text)) root_state create_mfi d
            create_mfi-IsShaped

  -- A search for an acl in a MUD file that was parsed never reads outside the array of acls. What it
  -- finds is one of the acls that were parsed, has the name that was searched, and has the 50
  -- elements of `aceList`. If it finds none, no acl that was parsed has the name. It ends without a
  -- result only where the name of an acl that was parsed is NULL.
  pub get_mud_file_acl-parse_mud_file :
      (file name : Bytes) (t : List Effect) {mud_file : MudFileInfo} {t' : List Effect}
      → parse_mud_file env jc (some file) t ≡ ok (some mud_file, t')
      → Finds HasRoom name mud_file.acl_list_count mud_file.acls
          (get_mud_file_acl (some name) mud_file)
  unfolding get_mud_file_acl
  get_mud_file_acl-parse_mud_file file name t {mud_file} h =
      let (mfi, same, _, shaped) = parse_mud_file-IsShaped file t h in
      let e : mfi ≡ mud_file = cc (sym same) in
      let shape = subst IsShaped e shaped in
      find_acl-Finds HasRoom name mud_file.acl_list_count mud_file.acls
        (omega (arith, shape.1, shape.0.acls_size)) shape.0.rooms
