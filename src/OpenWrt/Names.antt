-- ===== src/OpenWrt/Names.antt =====
-- The names in the commands of src/openwrt/openwrt.c: actions, families and files.
use osmud.Prelude.{[], ◌∷◌, ◌++◌, map, some, ◌≡◌, ◌≢◌, refl, ap, arith, length, length-append}
use osmud.Prelude.Int.{sub_ℕ}
use osmud.CString.{Bytes, codes, to_upper}
use osmud.Utils.{strcmpi}
use osmud.OpenWrt.{
  get_action_string, get_protocol_family, mud_db_created_file, mud_db_removed_file, mud_state_file,
}

-- `strcmpi` depends on its first argument up to `toupper` only.
pub strcmpi_case : (a b x : Bytes) → map to_upper a ≡ map to_upper b → strcmpi a x ≡ strcmpi b x
unfolding strcmpi
strcmpi_case [] [] x h = refl
strcmpi_case [] (c ∷ cs) x h = cc
strcmpi_case (c ∷ cs) [] x h = cc
strcmpi_case (c ∷ cs) (d ∷ ds) [] h = let e : to_upper c ≡ to_upper d = cc in ap (λ u. sub_ℕ u 0) e
strcmpi_case (c ∷ cs) (d ∷ ds) (x ∷ xs) h =
    let e : to_upper c ≡ to_upper d = cc in let rest = strcmpi_case cs ds xs cc in rw (e, rest) refl

-- The action and the family of a rule do not depend on the case of the texts in the MUD file.
pub get_action_string-get_protocol_family :
    (a b : Bytes)
    → map to_upper a ≡ map to_upper b
    → (get_action_string (some a) ≡ get_action_string (some b))
      × (get_protocol_family (some a) ≡ get_protocol_family (some b))
unfolding get_action_string get_protocol_family
get_action_string-get_protocol_family a b h = (
  rw (strcmpi_case a b (codes "reject") h, strcmpi_case a b (codes "accept") h) refl,
  rw (strcmpi_case a b (codes "all") h, strcmpi_case a b (codes "ipv6-acl") h) refl,
)

-- For every directory the database file that entries of devices are created in is another one than
-- the file that they are removed from.
pub mud_db_created_file-mud_db_removed_file :
    (directory : Bytes) → mud_db_created_file directory ≢ mud_db_removed_file directory
unfolding mud_db_created_file mud_db_removed_file
mud_db_created_file-mud_db_removed_file directory e = omega (
  arith,
  ap length e,
  length-append directory mud_state_file,
  length-append directory (codes "/" ++ mud_state_file),
)
