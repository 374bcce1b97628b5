-- ===== src/MudManager/Resolution.antt =====
-- `resolveDnsEntryToIp`: what the copy of the addresses of a host comes to.
use mathlib.Core.List.{append_assoc, append-nil}
use osmud.Prelude.{
  ◌∙◌, ◌≤◌, Option, none, some, List, [], ◌∷◌, ◌++◌, ◌≡◌, refl, ap, Outcome, ok, fault,
  out_of_bounds, arith, ltb, if◌then◌else◌, length, length-append, Bool-cases, inl, inr,
}
use osmud.CString.{Bytes}
use osmud.Outside.{Env, Effect, resolve}
use osmud.MudManager.Access.{
  max_dns_resolutions, copy_loop, copy_addresses, resolved, resolve_dns_entry_to_ip,
}

-- All addresses in their order, if the array has room for them.
abbrev pub fitting : List Bytes → Outcome (List Bytes)
fitting addresses =
    if ltb max_dns_resolutions (length addresses) then fault out_of_bounds else ok addresses

copy_loop-fitting :
    (addresses ip_list : List Bytes)
    → length ip_list ≤ max_dns_resolutions
    → copy_loop addresses ip_list ≡ fitting (ip_list ++ addresses)
unfolding copy_loop
copy_loop-fitting [] ip_list h = rw append-nil (ground arith)
copy_loop-fitting (address ∷ addresses) ip_list h =
    let e = append_assoc ip_list (address ∷ []) addresses in
    let n = length-append ip_list (address ∷ []) in
    let all = length-append ip_list (address ∷ addresses) in
    elim (Bool-cases (ltb (length ip_list) max_dns_resolutions)) [
      | inl room ↦
          rw (room, copy_loop)
            (copy_loop-fitting addresses (ip_list ++ (address ∷ [])) (grind arith) ∙ ap fitting e)
      | inr full ↦ rw (full, copy_loop) (grind arith)
    ]

-- the copy that starts with no address
pub copy_addresses_lem :
    (hostname : Option Bytes) (addresses : List Bytes) (t : List Effect)
    → copy_addresses hostname addresses t ≡ (
        if ltb max_dns_resolutions (length addresses)
        then fault out_of_bounds
        else ok (some (record { domain_name = hostname; ip_list = addresses }), t))
unfolding copy_addresses
copy_addresses_lem hostname addresses t =
    rw (copy_loop-fitting addresses [] (omega arith))
      (elim (Bool-cases (ltb max_dns_resolutions (length addresses))) [
        | inl full ↦ rw full refl
        | inr room ↦ rw room refl
      ])

module _ (env : Env) where
  pub resolve_dns_entry_to_ip_lem :
      (hostname : Option Bytes) (t : List Effect)
      → resolve_dns_entry_to_ip env hostname t ≡ (elim (env.addresses t hostname) [
        | none ↦ ok (none, resolve hostname ∷ t)
        | some addresses ↦
            if ltb max_dns_resolutions (length addresses)
            then fault out_of_bounds
            else ok (
              some (record { domain_name = hostname; ip_list = addresses }),
              resolve hostname ∷ t,
            )
      ])
  unfolding resolve_dns_entry_to_ip resolved
  resolve_dns_entry_to_ip_lem hostname t = go (env.addresses t hostname)
    where
      go :
          (found : Option (List Bytes))
          → resolved hostname found (resolve hostname ∷ t) ≡ (elim found [
            | none ↦ ok (none, resolve hostname ∷ t)
            | some addresses ↦
                if ltb max_dns_resolutions (length addresses)
                then fault out_of_bounds
                else ok (
                  some (record { domain_name = hostname; ip_list = addresses }),
                  resolve hostname ∷ t,
                )
          ])
      go none = refl
      go (some addresses) = (copy_addresses_lem hostname addresses (resolve hostname ∷ t))
