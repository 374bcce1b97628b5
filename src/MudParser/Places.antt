-- ===== src/MudParser/Places.antt =====
-- What the parser writes to the entry that it is at.
use native.Mathlib.Numerals.{add-one}
use osmud.Prelude.{suc, ◌+◌, List, [], ◌∷◌, ◌++◌, ◌≡◌, refl, length, Outcome, ok}
use osmud.MudParser.Keys.{acl_state, aces_state, from_device_policy_state, to_device_policy_state}
use osmud.MudParser.Info.{AceEntry, AclEntry, MudAccessList, MudFileInfo}
use osmud.MudParser.Fill.{
  modify_at, modify_last, update_acl, update_ace, update_ace_of, update_from, update_to,
  increment_state,
}

-- The file with `cur` as the last acl, behind `before`.
abbrev pub at_acl : MudFileInfo → List AclEntry → AclEntry → List AclEntry → MudFileInfo
at_acl m before cur blank = record m {
  acls = before ++ (cur ∷ blank);
  acl_list_count = suc (length before);
}

-- The acl with `cur` as the last entry, behind `before`.
abbrev pub at_ace : AclEntry → List AceEntry → AceEntry → List AceEntry → AclEntry
at_ace a before cur blank = record a {
  ace_list = before ++ (cur ∷ blank);
  ace_count = suc (length before);
}

modify_at-append {ℓ} :
    {A : Type ℓ} (f : A → Outcome A) (before : List A) (cur : A) (blank : List A) {c : A}
    → f cur ≡ ok c
    → modify_at (before ++ (cur ∷ blank)) (length before) f ≡ ok (before ++ (c ∷ blank))
unfolding modify_at
modify_at-append f [] cur blank e = rw e refl
modify_at-append f (x ∷ before) cur blank e = rw (modify_at-append f before cur blank e) refl

modify_last-append {ℓ} :
    {A : Type ℓ} (f : A → Outcome A) (before : List A) (cur : A) (blank : List A) {c : A}
    → f cur ≡ ok c
    → modify_last (suc (length before)) (before ++ (cur ∷ blank)) f ≡ ok (before ++ (c ∷ blank))
unfolding modify_last
modify_last-append f before cur blank e = modify_at-append f before cur blank e

pub update_acl-at_acl :
    (f : AclEntry → Outcome AclEntry) (m : MudFileInfo) (before : List AclEntry) (cur : AclEntry)
    (blank : List AclEntry) {c : AclEntry}
    → f cur ≡ ok c
    → update_acl f (at_acl m before cur blank) ≡ ok (at_acl m before c blank)
unfolding update_acl
update_acl-at_acl f m before cur blank e = rw (modify_last-append f before cur blank e) refl

pub update_ace-at_ace :
    (f : AceEntry → AceEntry) (m : MudFileInfo) (before : List AclEntry) (acl : AclEntry)
    (blank : List AclEntry) (aces : List AceEntry) (cur : AceEntry) (room : List AceEntry)
    → update_ace f (at_acl m before (at_ace acl aces cur room) blank)
      ≡ ok (at_acl m before (at_ace acl aces (f cur) room) blank)
unfolding update_ace
update_ace-at_ace f m before acl blank aces cur room =
    update_acl-at_acl (update_ace_of f) m before (at_ace acl aces cur room) blank
      (rw (modify_last-append (λ ace. ok (f ace)) aces cur room refl, update_ace_of) refl)

-- The file with `cur` as the last access list of a direction.
abbrev pub at_from :
    MudFileInfo → List MudAccessList → MudAccessList → List MudAccessList → MudFileInfo
at_from m before cur blank = record m {
  from_access_list = before ++ (cur ∷ blank);
  from_access_list_count = suc (length before);
}

abbrev pub at_to :
    MudFileInfo → List MudAccessList → MudAccessList → List MudAccessList → MudFileInfo
at_to m before cur blank = record m {
  to_access_list = before ++ (cur ∷ blank);
  to_access_list_count = suc (length before);
}

pub update_from-at_from :
    (f : MudAccessList → MudAccessList) (m : MudFileInfo) (before : List MudAccessList)
    (cur : MudAccessList) (blank : List MudAccessList)
    → update_from f (at_from m before cur blank) ≡ ok (at_from m before (f cur) blank)
unfolding update_from
update_from-at_from f m before cur blank =
    rw (modify_last-append (λ a. ok (f a)) before cur blank refl) refl

pub update_to-at_to :
    (f : MudAccessList → MudAccessList) (m : MudFileInfo) (before : List MudAccessList)
    (cur : MudAccessList) (blank : List MudAccessList)
    → update_to f (at_to m before cur blank) ≡ ok (at_to m before (f cur) blank)
unfolding update_to
update_to-at_to f m before cur blank =
    rw (modify_last-append (λ a. ok (f a)) before cur blank refl) refl

-- The next element of an array makes the blank entry behind the counter the last one.
pub increment_state-acl :
    (m : MudFileInfo) (before : List AclEntry) (cur : AclEntry) (blank : List AclEntry)
    → increment_state acl_state
        (record m { acls = before ++ (cur ∷ blank); acl_list_count = length before })
      ≡ ok (at_acl m before (record cur { ace_count = 0 }) blank)
unfolding increment_state
increment_state-acl m before cur blank =
    rw (add-one (length before))
      (update_acl-at_acl (λ a. ok (record a { ace_count = 0 })) m before cur blank refl)

pub increment_state-ace :
    (m : MudFileInfo) (before : List AclEntry) (acl : AclEntry) (blank : List AclEntry)
    (aces : List AceEntry) (cur : AceEntry) (room : List AceEntry)
    → increment_state aces_state (
        at_acl m before
          (record acl { ace_list = aces ++ (cur ∷ room); ace_count = length aces })
          blank)
      ≡ ok (at_acl m before (at_ace acl aces cur room) blank)
unfolding increment_state
increment_state-ace m before acl blank aces cur room =
    update_acl-at_acl (λ a. ok (record a { ace_count = a.ace_count + 1 })) m before
      (record acl { ace_list = aces ++ (cur ∷ room); ace_count = length aces }) blank
      (rw (add-one (length aces)) refl)

pub increment_state-from :
    (m : MudFileInfo) (before : List MudAccessList) (cur : MudAccessList)
    (blank : List MudAccessList)
    → increment_state from_device_policy_state (record m {
      from_access_list = before ++ (cur ∷ blank);
      from_access_list_count = length before;
    })
      ≡ ok (at_from m before cur blank)
unfolding increment_state
increment_state-from m before cur blank = rw (add-one (length before)) refl

pub increment_state-to :
    (m : MudFileInfo) (before : List MudAccessList) (cur : MudAccessList)
    (blank : List MudAccessList)
    → increment_state to_device_policy_state (record m {
      to_access_list = before ++ (cur ∷ blank);
      to_access_list_count = length before;
    })
      ≡ ok (at_to m before cur blank)
unfolding increment_state
increment_state-to m before cur blank = rw (add-one (length before)) refl
