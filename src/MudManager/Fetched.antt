-- ===== src/MudManager/Fetched.antt =====
-- What fetching a MUD file and its signature adds to the effects.
use mathlib.Core.List.{append_assoc}
use osmud.Prelude.{
  not, ℕ, Bool, true, false, ◌⊎◌, inl, inr, Option, none, some, List, [], ◌∷◌, ◌++◌, ◌≡◌, refl, sym,
  ap, ◌∙◌, ok, All, All-append, Bool-cases,
}
use osmud.CString.{Bytes}
use osmud.Outside.{Env, Effect, curl_init, create_file, transfer, ok-pair}
use osmud.DhcpEvent.{DhcpEvent}
use osmud.OpenWrt.{command, verify_command}
use osmud.Comms.{get_open_mud_file, begin_fetch, fetch, close_output}

-- What fetching and checking a MUD file does: transfers, and the check of this event's signature.
pub data Fetching (event : DhcpEvent) : Effect → Type 0 where
  began : Fetching event curl_init
  created : (file : Bytes) → Fetching event (create_file file)
  transferred :
      (url file : Bytes) (verify_peer : Bool) → Fetching event (transfer url file verify_peer)
  checked :
      Fetching event (
        command
          (verify_command event.mud_file_storage_location event.mud_sig_file_storage_location))

-- the effects that were added, all of one kind
pub record Added (P : Effect → Type 0) (t t' : List Effect) : Type 0 where
  pub added : List Effect
  pub trace : t' ≡ added ++ t
  pub each : All P added

module _ {event : DhcpEvent} where
  pub Added-refl : (t : List Effect) → Added (Fetching event) t t
  Added-refl t = record { added = []; trace = refl; each = tt }

  pub Added-trans :
      {t u v : List Effect}
      → Added (Fetching event) t u
      → Added (Fetching event) u v
      → Added (Fetching event) t v
  Added-trans {t} a b = record {
    added = b.added ++ a.added;
    trace = b.trace ∙ ap (λ w. b.added ++ w) a.trace ∙ sym (append_assoc b.added a.added t);
    each = All-append (Fetching event) b.added a.added b.each a.each;
  }

  -- nothing more, or the check of the signature
  pub Added-quiet :
      {t u v : List Effect} (check : Effect)
      → Fetching event check
      → Added (Fetching event) t u
      → (v ≡ u) ⊎ (v ≡ check ∷ u)
      → Added (Fetching event) t v
  Added-quiet check c a (inl e) = record { added = a.added; trace = e ∙ a.trace; each = a.each }
  Added-quiet check c a (inr e) = record {
    added = check ∷ a.added;
    trace = e ∙ ap (λ w. check ∷ w) a.trace;
    each = (c, a.each);
  }

module _ (env : Env) (event : DhcpEvent) where
  close_output-eq-ok :
      (opened : Bool) (retval : ℕ) (t : List Effect) {n : ℕ} {t' : List Effect}
      → close_output opened retval t ≡ ok (n, t')
      → t' ≡ t
  unfolding close_output
  close_output-eq-ok true retval t h = (ok-pair h).1
  close_output-eq-ok false retval t h = cc

  fetch-Added :
      (flag : Bool) (url file : Option Bytes) (t : List Effect) {n : ℕ} {t' : List Effect}
      → fetch env flag url file t ≡ ok (n, t')
      → Added (Fetching event) t t'
  unfolding fetch
  fetch-Added flag none file t h = cc
  fetch-Added flag (some url) none t h = cc
  fetch-Added flag (some url) (some file) t h = record {
    added = transfer url file (not flag) ∷ create_file file ∷ [];
    trace = close_output-eq-ok (env.opens t (create_file file)) _ _ h;
    each = (transferred url file (not flag), (created file, tt));
  }

  pub get_open_mud_file-Added :
      (flag : Bool) (url file : Option Bytes) (t : List Effect) {n : ℕ} {t' : List Effect}
      → get_open_mud_file env flag url file t ≡ ok (n, t')
      → Added (Fetching event) t t'
  unfolding get_open_mud_file begin_fetch
  get_open_mud_file-Added flag url file t h = elim (Bool-cases (env.opens t curl_init)) [
    | inl e ↦
        let a = fetch-Added flag url file (curl_init ∷ t) (rw (e, begin_fetch) at h) in
        record {
          added = a.added ++ (curl_init ∷ []);
          trace = a.trace ∙ sym (append_assoc a.added (curl_init ∷ []) t);
          each = All-append (Fetching event) a.added (curl_init ∷ []) a.each (began, tt);
        }
    | inr e ↦ record {
      added = curl_init ∷ [];
      trace = (ok-pair (rw (e, begin_fetch) at h)).1;
      each = (began, tt);
    }
  ]

module _ (env : Env) where
  -- A file was written by a transfer with status 0 that checks the certificate of the server.
  pub record Transferred (url file : Option Bytes) (t u : List Effect) : Type 0 where
    pub from : Bytes
    pub is_from : url ≡ some from
    pub into : Bytes
    pub is_into : file ≡ some into
    pub opened : env.opens (curl_init ∷ t) (create_file into) ≡ true
    pub received : env.status (create_file into ∷ curl_init ∷ t) (transfer from into true) ≡ 0
    pub trace : u ≡ transfer from into true ∷ create_file into ∷ curl_init ∷ t

  -- What status 0 of `getOpenMudFile` says: the file was transferred, or `curl_easy_init` gave no
  -- handle and nothing was done.
  abbrev pub Fetched : Option Bytes → Option Bytes → List Effect → List Effect → Type 0
  Fetched url file t u =
      Transferred url file t u ⊎ ((env.opens t curl_init ≡ false) × (u ≡ curl_init ∷ t))

  closed-zero :
      (opened : Bool) (n : ℕ) (t u : List Effect)
      → close_output opened n t ≡ ok (0, u)
      → (opened ≡ true) × (n ≡ 0) × (u ≡ t)
  unfolding close_output
  closed-zero true n t u h = (refl, sym (ok-pair h).0, (ok-pair h).1)
  closed-zero false n t u h = cc

  fetch-zero :
      (url file : Option Bytes) (t u : List Effect)
      → fetch env false url file (curl_init ∷ t) ≡ ok (0, u)
      → Transferred url file t u
  unfolding fetch
  fetch-zero none file t u h = cc
  fetch-zero (some url) none t u h = cc
  fetch-zero (some url) (some file) t u h =
      let (opened, zero, same) =
        closed-zero (env.opens (curl_init ∷ t) (create_file file)) _ _ u h in
      record {
        from = url;
        is_from = refl;
        into = file;
        is_into = refl;
        opened = opened;
        received = zero;
        trace = same;
      }

  pub get_open_mud_file-Fetched :
      (url file : Option Bytes) (t u : List Effect)
      → get_open_mud_file env false url file t ≡ ok (0, u)
      → Fetched url file t u
  unfolding get_open_mud_file begin_fetch
  get_open_mud_file-Fetched url file t u h = elim (Bool-cases (env.opens t curl_init)) [
    | inl e ↦ inl (fetch-zero url file t u (rw (e, begin_fetch) at h))
    | inr e ↦ inr (e, (ok-pair (rw (e, begin_fetch) at h)).1)
  ]
