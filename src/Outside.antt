-- ===== src/Outside.antt =====
-- What the program asks of its surroundings, and how they answer. A run keeps the list of its
-- effects, the newest first. An answer may depend on all the effects before it, so an `Env` is any
-- deterministic environment, and a statement for every `Env` holds whatever the shell scripts, the
-- network and the file system do. Messages to the log file are not among the effects.
use osmud.Prelude.{
  ℕ, Bool, Option, none, some, List, ◌∷◌, Outcome, ok, fault, Fault, null_dereference, ◌≡◌, refl,
}
use osmud.CString.{Bytes}

pub data Effect : Type 0 where
  -- `system(command)`
  system : Bytes → Effect
  -- `fopen(file, "a")` and the line printed to it
  append_line : Bytes → Bytes → Effect
  -- `curl_easy_init()`
  curl_init : Effect
  -- `fopen(file, "w")`
  create_file : Bytes → Effect
  -- `curl_easy_perform` with its URL, its output file and the test of the peer's certificate
  transfer : Bytes → Bytes → Bool → Effect
  -- `getaddrinfo(host, "http")`
  resolve : Option Bytes → Effect
  -- `fopen(file, "r")`, `stat` and `fread`
  read_file : Bytes → Effect
  -- `mkdir(path, 0755)`
  mkdir : Bytes → Effect
  -- `fopen(file, mode)` in `fopen_with_path`
  open_file : Bytes → Bytes → Effect
  -- `fprintf` or `fwrite` of a text to an open file
  print_to : Bytes → Bytes → Effect
  -- `open(file, O_RDONLY)`, and is the descriptor more than 0?
  open_events : Bytes → Effect

pub record Env : Type 0 where
  -- the `int` that the call returns, of which the program tests only whether it is 0; of `mkdir`
  -- it is 0 or `errno`
  pub status : List Effect → Effect → ℕ
  -- does the call return a pointer that is not NULL?
  pub opens : List Effect → Effect → Bool
  -- the addresses that `getaddrinfo` lists for a host, or the failure of the resolver
  pub addresses : List Effect → Option Bytes → Option (List Bytes)
  -- the contents of a file, or the failure to open it
  pub contents : List Effect → Bytes → Option Bytes

-- A computation with effects. A fault ends the run.
abbrev pub Exec {ℓ} : Type ℓ → Type ℓ
Exec A = List Effect → Outcome (A × List Effect)

infixl 5 ◌>>=◌ ◌>>◌
abbrev pub ◌>>=◌ {ℓ κ} : {A : Type ℓ} {B : Type κ} → Exec A → (A → Exec B) → Exec B
◌>>=◌ m f t = elim (m t) [ ok (a, t') ↦ f a t' | fault e ↦ fault e ]

abbrev pub ◌>>◌ {ℓ κ} : {A : Type ℓ} {B : Type κ} → Exec A → Exec B → Exec B
m >> k = m >>= λ _. k

abbrev pub pure {ℓ} : {A : Type ℓ} → A → Exec A
pure a t = ok (a, t)

abbrev pub crash {ℓ} : {A : Type ℓ} → Fault → Exec A
crash e t = fault e

abbrev pub lift {ℓ} : {A : Type ℓ} → Outcome A → Exec A
lift (ok a) t = ok (a, t)
lift (fault e) t = fault e

-- a pointer that is read through
abbrev pub deref {ℓ} : {A : Type ℓ} → Option A → Exec A
deref none t = fault null_dereference
deref (some a) t = ok (a, t)

module _ (env : Env) where
  -- a call that returns an `int`
  abbrev pub call : Effect → Exec ℕ
  call e t = ok (env.status t e, e ∷ t)

  -- a call that returns a pointer
  abbrev pub open_by : Effect → Exec Bool
  open_by e t = ok (env.opens t e, e ∷ t)

  abbrev pub lookup_host : Option Bytes → Exec (Option (List Bytes))
  lookup_host host t = ok (env.addresses t host, resolve host ∷ t)

  abbrev pub load_file : Bytes → Exec (Option Bytes)
  load_file file t = ok (env.contents t file, read_file file ∷ t)

-- A bind after a computation that returns, and after one that faults.
pub exec_bind-ok {ℓ κ} :
    {A : Type ℓ} {B : Type κ} (m : Exec A) (f : A → Exec B) (t : List Effect) {a : A}
    {t' : List Effect}
    → m t ≡ ok (a, t')
    → (m >>= f) t ≡ f a t'
exec_bind-ok m f t e = rw (e, ◌>>=◌) refl

pub exec_bind-fault {ℓ κ} :
    {A : Type ℓ} {B : Type κ} (m : Exec A) (f : A → Exec B) (t : List Effect) {x : Fault}
    → m t ≡ fault x
    → (m >>= f) t ≡ fault x
exec_bind-fault m f t e = rw (e, ◌>>=◌) refl

pub lift-ok {ℓ} :
    {A : Type ℓ} (o : Outcome A) (t : List Effect) {a : A} → o ≡ ok a → lift o t ≡ ok (a, t)
lift-ok o t e = rw e refl

-- Inversion of a bind that returns.
pub exec_bind-eq-ok {ℓ κ} :
    {A : Type ℓ} {B : Type κ} (m : Exec A) (f : A → Exec B) (t : List Effect) {r : B × List Effect}
    → (m >>= f) t ≡ ok r
    → (p : A × List Effect) × (m t ≡ ok p) × (f p.0 p.1 ≡ ok r)
exec_bind-eq-ok {A = A} m f t {r} h = go (m t) refl h
  where
    go :
        (o : Outcome (A × List Effect))
        → m t ≡ o
        → (elim o [ ok (a, t') ↦ f a t' | fault e ↦ fault e ]) ≡ ok r
        → (p : A × List Effect) × (m t ≡ ok p) × (f p.0 p.1 ≡ ok r)
    go (ok p) e h = (p, e, h)
    go (fault x) e h = cc

pub lift_bind-eq-ok {ℓ κ} :
    {A : Type ℓ} {B : Type κ} (o : Outcome A) (f : A → Exec B) (t : List Effect)
    {r : B × List Effect}
    → (lift o >>= f) t ≡ ok r
    → (a : A) × (o ≡ ok a) × (f a t ≡ ok r)
lift_bind-eq-ok (ok a) f t h = (a, refl, h)
lift_bind-eq-ok (fault e) f t h = cc

pub ok-pair {ℓ} :
    {A : Type ℓ} {a b : A} {t u : List Effect}
    → ◌≡◌ {A = Outcome (A × List Effect)} (ok (a, t)) (ok (b, u))
    → (b ≡ a) × (u ≡ t)
ok-pair h = (cc, cc)

-- The computation ends without a fault.
abbrev pub Returns {ℓ} : {A : Type ℓ} → Exec A → List Effect → Type ℓ
Returns {A = A} m t = (r : A × List Effect) × (m t ≡ ok r)

pub Returns-bind {ℓ κ} :
    {A : Type ℓ} {B : Type κ} (m : Exec A) (f : A → Exec B) (t : List Effect)
    → Returns m t
    → ((a : A) (t' : List Effect) → m t ≡ ok (a, t') → Returns (f a) t')
    → Returns (m >>= f) t
Returns-bind m f t ((a, t'), e) h = let (r, e') = h a t' e in (r, rw (e, ◌>>=◌) e')
