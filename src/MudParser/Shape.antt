-- ===== src/MudParser/Shape.antt =====
-- The arrays of a `MudFileInfo` and the counter of its acls, through the writes of the parser.
use osmud.Prelude.{
  ◌∙◌, ℕ, zero, suc, ◌<◌, ◌≤◌, List, [], ◌∷◌, ◌≡◌, refl, ◌∙◌, arith, Outcome, ok, bind-eq-ok,
  ok_injective, length, All,
}
use mathlib.Core.Path.{subst}
use osmud.MudParser.Info.{
  AceEntry, AclEntry, MudAccessList, MudFileInfo, max_device_policies, max_aces, max_acls,
}
use osmud.MudParser.Fill.{
  modify_at, modify_last, update_acl, update_ace_of, update_ace, update_from, update_to,
}

-- An acl has room for `MAX_ACES` entries.
abbrev pub HasRoom : AclEntry → Type 0
HasRoom acl = length acl.ace_list ≡ max_aces

pub record Sizes (from to : List MudAccessList) (acls : List AclEntry) : Type 0 where
  pub from_size : length from ≡ max_device_policies
  pub to_size : length to ≡ max_device_policies
  pub acls_size : length acls ≡ max_acls
  pub rooms : All HasRoom acls

-- Every array has the size of the source.
abbrev pub IsSized : MudFileInfo → Type 0
IsSized mfi = Sizes mfi.from_access_list mfi.to_access_list mfi.acls

-- Besides, the counter of the acls stays within their array.
abbrev pub IsShaped : MudFileInfo → Type 0
IsShaped mfi = IsSized mfi × (mfi.acl_list_count ≤ max_acls)

length-modify_at {ℓ} :
    {A : Type ℓ} (xs : List A) (i : ℕ) (f : A → Outcome A) {ys : List A}
    → modify_at xs i f ≡ ok ys
    → (length ys ≡ length xs) × (i < length xs)
unfolding modify_at
length-modify_at [] i f h = cc
length-modify_at (x ∷ xs) zero f h =
    let (y, _, e) = bind-eq-ok (f x) (λ y. ok (y ∷ xs)) h in
    (rw (← ok_injective e) refl, omega arith)
length-modify_at (x ∷ xs) (suc i) f h =
    let (zs, e, e') = bind-eq-ok (modify_at xs i f) (λ zs. ok (x ∷ zs)) h in
    let (same, less) = length-modify_at xs i f e in
    (rw (← ok_injective e') (omega (arith, same)), omega (arith, less))

All-modify_at {ℓ κ} :
    {A : Type ℓ} (P : A → Type κ) (f : A → Outcome A)
    → ((a b : A) → f a ≡ ok b → P a → P b)
    → (xs : List A) (i : ℕ) {ys : List A} → modify_at xs i f ≡ ok ys
    → All P xs
    → All P ys
unfolding modify_at
All-modify_at P f keeps [] i h p = cc
All-modify_at P f keeps (x ∷ xs) zero h p =
    let (y, e, e') = bind-eq-ok (f x) (λ y. ok (y ∷ xs)) h in
    subst (λ us. All P us) (ok_injective e') (keeps x y e p.0, p.1)
All-modify_at P f keeps (x ∷ xs) (suc i) h p =
    let (zs, e, e') = bind-eq-ok (modify_at xs i f) (λ zs. ok (x ∷ zs)) h in
    subst (λ us. All P us) (ok_injective e') (p.0, All-modify_at P f keeps xs i e p.1)

-- A write to the last element keeps the length, and the counter is within the array.
pub length-modify_last {ℓ} :
    {A : Type ℓ} (count : ℕ) (xs : List A) (f : A → Outcome A) {ys : List A}
    → modify_last count xs f ≡ ok ys
    → (length ys ≡ length xs) × (count ≤ length xs)
unfolding modify_last
length-modify_last zero xs f h = cc
length-modify_last (suc i) xs f h =
    let (same, less) = length-modify_at xs i f h in (same, omega (arith, less))

All-modify_last {ℓ κ} :
    {A : Type ℓ} (P : A → Type κ) (f : A → Outcome A)
    → ((a b : A) → f a ≡ ok b → P a → P b)
    → (count : ℕ) (xs : List A) {ys : List A} → modify_last count xs f ≡ ok ys
    → All P xs
    → All P ys
unfolding modify_last
All-modify_last P f keeps zero xs h p = cc
All-modify_last P f keeps (suc i) xs h p = All-modify_at P f keeps xs i h p

-- A record that returns with the same arrays has the same shape.
pub ok-IsShaped : {m m' : MudFileInfo} → ok m ≡ ok m' → IsShaped m → IsShaped m'
ok-IsShaped h s = subst IsShaped (ok_injective h) s

pub update_acl-IsShaped :
    (f : AclEntry → Outcome AclEntry)
    → ((a b : AclEntry) → f a ≡ ok b → HasRoom a → HasRoom b)
    → (mfi : MudFileInfo) {mfi' : MudFileInfo} → update_acl f mfi ≡ ok mfi'
    → IsSized mfi
    → IsShaped mfi'
unfolding update_acl
update_acl-IsShaped f keeps mfi h s =
    let (acls, e, e') =
      bind-eq-ok (modify_last mfi.acl_list_count mfi.acls f)
        (λ acls. ok (record mfi { acls = acls })) h in
    let (same, within) = length-modify_last mfi.acl_list_count mfi.acls f e in
    ok-IsShaped e' (
      record {
        from_size = s.from_size;
        to_size = s.to_size;
        acls_size = same ∙ s.acls_size;
        rooms = All-modify_last HasRoom f keeps mfi.acl_list_count mfi.acls e s.rooms;
      },
      omega (arith, within, s.acls_size),
    )

update_ace_of-HasRoom :
    (f : AceEntry → AceEntry) (a : AclEntry) {b : AclEntry}
    → update_ace_of f a ≡ ok b
    → HasRoom a
    → HasRoom b
unfolding update_ace_of
update_ace_of-HasRoom f a h room =
    let (aces, e, e') =
      bind-eq-ok (modify_last a.ace_count a.ace_list (λ ace. ok (f ace)))
        (λ aces. ok (record a { ace_list = aces })) h in
    subst HasRoom (ok_injective e')
      ((length-modify_last a.ace_count a.ace_list (λ ace. ok (f ace)) e).0 ∙ room)

pub update_ace-IsShaped :
    (f : AceEntry → AceEntry) (mfi : MudFileInfo) {mfi' : MudFileInfo}
    → update_ace f mfi ≡ ok mfi'
    → IsShaped mfi
    → IsShaped mfi'
unfolding update_ace
update_ace-IsShaped f mfi h s =
    update_acl-IsShaped (update_ace_of f) (λ a b e room. update_ace_of-HasRoom f a e room) mfi h s.0

pub update_from-IsShaped :
    (f : MudAccessList → MudAccessList) (mfi : MudFileInfo) {mfi' : MudFileInfo}
    → update_from f mfi ≡ ok mfi'
    → IsShaped mfi
    → IsShaped mfi'
unfolding update_from
update_from-IsShaped f mfi h s =
    let (accesses, e, e') =
      bind-eq-ok (modify_last mfi.from_access_list_count mfi.from_access_list (λ a. ok (f a)))
        (λ accesses. ok (record mfi { from_access_list = accesses })) h in
    let (same, _) =
      length-modify_last mfi.from_access_list_count mfi.from_access_list (λ a. ok (f a)) e in
    ok-IsShaped e' (
      record {
        from_size = same ∙ s.0.from_size;
        to_size = s.0.to_size;
        acls_size = s.0.acls_size;
        rooms = s.0.rooms;
      },
      s.1,
    )

pub update_to-IsShaped :
    (f : MudAccessList → MudAccessList) (mfi : MudFileInfo) {mfi' : MudFileInfo}
    → update_to f mfi ≡ ok mfi'
    → IsShaped mfi
    → IsShaped mfi'
unfolding update_to
update_to-IsShaped f mfi h s =
    let (accesses, e, e') =
      bind-eq-ok (modify_last mfi.to_access_list_count mfi.to_access_list (λ a. ok (f a)))
        (λ accesses. ok (record mfi { to_access_list = accesses })) h in
    let (same, _) =
      length-modify_last mfi.to_access_list_count mfi.to_access_list (λ a. ok (f a)) e in
    ok-IsShaped e' (
      record {
        from_size = s.0.from_size;
        to_size = same ∙ s.0.to_size;
        acls_size = s.0.acls_size;
        rooms = s.0.rooms;
      },
      s.1,
    )
