-- ===== src/MudParser/Free.antt =====
-- src/mudparser.c: `freeMudFileInfo`, as the strings that are freed.
use osmud.Prelude.{
  ℕ, zero, suc, Option, none, some, List, [], ◌∷◌, ◌++◌, Outcome, ok, fault, out_of_bounds, ◌>>=◌,
}
use osmud.CString.{Bytes}
use osmud.MudParser.Info.{AceEntry, AclEntry, MudAccessList, MudFileInfo}

-- the block that `safe_free` frees, if there is one
unfoldable pub safe_free : Option Bytes → List Bytes
safe_free none = []
safe_free (some p) = p ∷ []

-- The loop over the first `count` entries of an array.
unfoldable pub free_entries {ℓ} :
    {A : Type ℓ} → (A → Outcome (List Bytes)) → ℕ → List A → Outcome (List Bytes)
free_entries free zero entries = ok []
free_entries free (suc n) [] = fault out_of_bounds
free_entries free (suc n) (entry ∷ entries) =
    free entry >>= λ freed. free_entries free n entries >>= λ more. ok (freed ++ more)

unfoldable pub free_access : MudAccessList → Outcome (List Bytes)
unfolding safe_free
free_access access = ok (safe_free access.acl_name ++ safe_free access.acl_type)

unfoldable pub free_ace : AceEntry → Outcome (List Bytes)
unfolding safe_free
free_ace ace = ok (
    safe_free ace.actions_forwarding
    ++ safe_free ace.dns_name
    ++ safe_free ace.lower_port
    ++ safe_free ace.protocol
    ++ safe_free ace.rule_name
    ++ safe_free ace.upper_port)

unfoldable pub free_acl : AclEntry → Outcome (List Bytes)
unfolding safe_free free_ace free_entries
free_acl acl = free_entries free_ace acl.ace_count acl.ace_list >>= λ freed.
    ok (safe_free acl.acl_name ++ safe_free acl.acl_type ++ freed)

-- the calls before the loops
unfoldable pub free_texts : MudFileInfo → List Bytes
unfolding safe_free
free_texts mfi =
    safe_free mfi.description
    ++ safe_free mfi.mud_version
    ++ safe_free mfi.mud_url
    ++ safe_free mfi.last_update
    ++ safe_free mfi.cache_validity
    ++ safe_free mfi.is_supported
    ++ safe_free mfi.systeminfo
    ++ safe_free mfi.mfg_name
    ++ safe_free mfi.model_name
    ++ safe_free mfi.firmware_rev
    ++ safe_free mfi.software_rev
    ++ safe_free mfi.extensions

-- The strings in the order of the calls; at the end the block of the file itself is freed.
unfoldable pub free_mud_file_info : MudFileInfo → Outcome (List Bytes)
unfolding free_texts free_access free_acl free_entries
free_mud_file_info mfi =
    free_entries free_access mfi.from_access_list_count mfi.from_access_list >>= λ from.
    free_entries free_access mfi.to_access_list_count mfi.to_access_list >>= λ to.
    free_entries free_acl mfi.acl_list_count mfi.acls >>= λ acls.
    ok (free_texts mfi ++ from ++ to ++ acls)
