-- ===== src/MudManager/Ready.antt =====
-- Which MUD files the loops over the access lists can be run on.
use osmud.Prelude.{
  ℕ, zero, suc, ◌≤◌, Bool, true, false, not, ◌&&◌, ◌||◌, Option, none, some, List, [], ◌∷◌, ◌≡◌,
  Outcome, ok, fault, length,
}
use osmud.CString.{Bytes}
use osmud.Outside.{Env, Effect}
use osmud.MudParser.Info.{AceEntry, AclEntry, MudAccessList, MudFileInfo}
use osmud.MudParser.{get_mud_file_acl}
use osmud.MudManager.Access.{is_acldns, max_dns_resolutions}

-- Every host has an answer that fits `ipList`.
abbrev pub Resolves : Env → Type 0
Resolves env =
    (t : List Effect) (host : Option Bytes)
    → (ips : List Bytes) × (env.addresses t host ≡ some ips) × (length ips ≤ max_dns_resolutions)

abbrev pub is_some {ℓ} : {A : Type ℓ} → Option A → Bool
is_some none = false
is_some (some a) = true

-- an ace that names a host says what to do
abbrev pub ace_ready : AceEntry → Bool
ace_ready ace = not (is_acldns ace.ace_type) || is_some ace.actions_forwarding

-- the first `count` entries are there and ready
unfoldable pub aces_ready : ℕ → List AceEntry → Bool
aces_ready zero aces = true
aces_ready (suc n) [] = false
aces_ready (suc n) (ace ∷ aces) = ace_ready ace && aces_ready n aces

abbrev pub acl_ready : Option AclEntry → Bool
acl_ready none = true
acl_ready (some acl) = aces_ready acl.ace_count acl.ace_list

-- the search for an acl returns, and what it finds is ready
abbrev pub search_ready : Outcome (Option AclEntry) → Bool
search_ready (ok acl) = acl_ready acl
search_ready (fault e) = false

unfoldable pub names_ready : MudFileInfo → ℕ → List MudAccessList → Bool
names_ready mud_file zero accesses = true
names_ready mud_file (suc n) [] = false
names_ready mud_file (suc n) (access ∷ accesses) =
    search_ready (get_mud_file_acl access.acl_name mud_file) && names_ready mud_file n accesses

-- Are the access lists, and the acls that they name, there and ready?
abbrev pub mud_file_ready : MudFileInfo → Bool
mud_file_ready mud_file =
    names_ready mud_file mud_file.from_access_list_count mud_file.from_access_list
    && names_ready mud_file mud_file.to_access_list_count mud_file.to_access_list
