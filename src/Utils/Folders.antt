-- ===== src/Utils/Folders.antt =====
-- The directories that `mkdir_path` and `fopen_with_path` make.
use mathlib.Core.List.{append_assoc, append-nil}
use mathlib.Core.Path.{subst}
use osmud.Prelude.{
  Bool-cases, ℕ, zero, suc, ◌≤◌, Bool, true, false, ◌||◌, ◌&&◌, List, [], ◌∷◌, ◌++◌, ◌≡◌, refl, sym,
  ap, ◌∙◌, arith, ◌==◌, if◌then◌else◌, length, length-append, take-append, drop-append_tail, inl,
  inr, ok, fault,
}
use osmud.CString.{Bytes, has}
use osmud.CString.Laws.{strrchr-none, strrchr-append, last_split}
use osmud.Outside.{Env, Exec, Effect, mkdir, open_file, call, pure, ◌>>=◌, exec_bind-ok}
use osmud.Utils.Paths.{
  eexist, make_rest, make_last, mkdir_levels, mkdir_path, make_parents, fopen_with_path,
}

-- a path as a list of directories: none for the empty path
abbrev directory : Bytes → List Bytes
directory [] = []
directory (c ∷ cs) = (c ∷ cs) ∷ []

-- The directories on a path below `before`, the outermost first: what is before each "/", and the
-- path itself.
unfoldable pub folders_from : Bytes → Bytes → List Bytes
folders_from before [] = directory before
folders_from before (c ∷ cs) =
    (if c == b'/' then directory before else []) ++ folders_from (before ++ (c ∷ [])) cs

abbrev pub folders : Bytes → List Bytes
folders path = folders_from [] path

folders_from-free :
    (before s : Bytes) → has b'/' s ≡ false → folders_from before s ≡ directory (before ++ s)
unfolding folders_from has
folders_from-free before [] h = rw (append-nil before) refl
folders_from-free before (x ∷ xs) h =
    let other : (x == b'/') ≡ false = ground arith in
    let free : has b'/' xs ≡ false = ground arith in
    rw (other, folders_from-free (before ++ (x ∷ [])) xs free, append_assoc before (x ∷ []) xs) refl

folders_from-append :
    (before a b : Bytes)
    → has b'/' b ≡ false
    → folders_from before (a ++ (b'/' ∷ b))
      ≡ folders_from before a ++ directory (before ++ (a ++ (b'/' ∷ b)))
unfolding folders_from
folders_from-append before [] b h = ap (◌++◌ (directory before)) (
    folders_from-free (before ++ (b'/' ∷ [])) b h
    ∙ ap directory (append_assoc before (b'/' ∷ []) b))
folders_from-append before (x ∷ xs) b h =
    rw
      (
        folders_from-append (before ++ (x ∷ [])) xs b h,
        append_assoc before (x ∷ []) (xs ++ (b'/' ∷ b)),
      )
      (sym (
        append_assoc (if x == b'/' then directory before else [])
          (folders_from (before ++ (x ∷ [])) xs) (directory (before ++ ((x ∷ xs) ++ (b'/' ∷ b))))))

-- Directories are made in their order, up to the first that neither is made nor exists.
module _ (env : Env) where
  unfoldable pub make_all : List Bytes → Bytes → Exec (ℕ × Bytes)
  make_all [] path = pure (0, path)
  make_all (d ∷ ds) path = do
    error ← call env (mkdir d)
    if error == 0 || error == eexist then make_all ds path else pure (1, d)

  -- whether `mkdir` made the directory or found it
  abbrev pub is_made : List Effect → Bytes → Bool
  is_made t d = env.status t (mkdir d) == 0 || env.status t (mkdir d) == eexist

  -- Are they all made or found?
  unfoldable pub all_made : List Bytes → List Effect → Bool
  all_made [] t = true
  all_made (d ∷ ds) t = is_made t d && all_made ds (mkdir d ∷ t)

  -- the calls up to the first that fails, on top of `t`
  unfoldable pub attempts : List Bytes → List Effect → List Effect
  attempts [] t = t
  attempts (d ∷ ds) t = if is_made t d then attempts ds (mkdir d ∷ t) else mkdir d ∷ t

  make_last-all :
      (path : Bytes) (t : List Effect) → make_last env path t ≡ make_all (directory path) path t
  unfolding make_last make_all
  make_last-all [] t = refl
  make_last-all (c ∷ cs) t = ground arith

  make_rest-all :
      (ds : List Bytes) (a b : Bytes) (t : List Effect)
      → (make_all ds a >>= make_rest env b) t
        ≡ make_all (ds ++ directory (a ++ (b'/' ∷ b))) (a ++ (b'/' ∷ b)) t
  unfolding make_all make_rest
  make_rest-all [] a b t = make_last-all (a ++ (b'/' ∷ b)) t
  make_rest-all (d ∷ ds) a b t = ground (arith, make_rest-all ds a b (mkdir d ∷ t))

  mkdir_levels-free :
      (n : ℕ) (path : Bytes) (t : List Effect)
      → has b'/' path ≡ false
      → mkdir_levels env (suc n) path t ≡ make_all (folders path) path t
  unfolding mkdir_levels
  mkdir_levels-free n path t free =
      rw (folders_from-free [] path free)
        (rw (strrchr-none b'/' path free, mkdir_levels) (make_last-all path t))

  mkdir_levels-split :
      (n : ℕ) (a b : Bytes) (t : List Effect)
      → mkdir_levels env n a t ≡ make_all (folders a) a t
      → has b'/' b ≡ false
      → mkdir_levels env (suc n) (a ++ (b'/' ∷ b)) t
        ≡ make_all (folders (a ++ (b'/' ∷ b))) (a ++ (b'/' ∷ b)) t
  unfolding mkdir_levels
  mkdir_levels-split n a b t ih free =
      rw (folders_from-append [] a b free, strrchr-append b'/' a b free, mkdir_levels)
        (rw (take-append a (b'/' ∷ b), drop-append_tail a b'/' b)
          (ap (λ o. elim o [ ok (r, t') ↦ make_rest env b r t' | fault e ↦ fault e ]) ih
            ∙ make_rest-all (folders a) a b t))

  mkdir_levels-all :
      (n : ℕ) (path : Bytes) (t : List Effect)
      → length path ≤ n
      → mkdir_levels env n path t ≡ make_all (folders path) path t
  unfolding mkdir_levels folders_from make_all
  mkdir_levels-all zero [] t h = make_last-all [] t
  mkdir_levels-all zero (c ∷ cs) t h = absurd (omega (arith, h))
  mkdir_levels-all (suc n) path t h = elim (last_split b'/' path) [
    | inl free ↦ mkdir_levels-free n path t free
    | inr l ↦
        subst (λ p. mkdir_levels env (suc n) p t ≡ make_all (folders p) p t) (sym l.splits)
          (mkdir_levels-split n l.before l.after t
            (mkdir_levels-all n l.before t
              (omega (arith, h, ap length l.splits, length-append l.before (b'/' ∷ l.after))))
            l.last)
  ]

  -- `mkdir_path` makes every directory on the path, the outermost first, and the path itself. It
  -- goes on where a directory exists, and stops at the first that neither is made nor exists: then
  -- it returns 1 and the string is cut there; otherwise it returns 0 and the string is as before.
  pub mkdir_path-make_all :
      (path : Bytes) (t : List Effect) → mkdir_path env path t ≡ make_all (folders path) path t
  unfolding mkdir_path
  mkdir_path-make_all path t = mkdir_levels-all (length path) path t (omega arith)

  -- what `make_all` does, by whether all directories are made or found
  make_all-made :
      (ds : List Bytes) (path : Bytes) (t : List Effect)
      → all_made ds t ≡ true
      → make_all ds path t ≡ ok ((0, path), attempts ds t)
  unfolding make_all all_made attempts
  make_all-made [] path t h = refl
  make_all-made (d ∷ ds) path t h = ground (arith, make_all-made ds path (mkdir d ∷ t))

  make_all-unmade :
      (ds : List Bytes) (path : Bytes) (t : List Effect)
      → all_made ds t ≡ false
      → (d : Bytes) × (make_all ds path t ≡ ok ((1, d), attempts ds t))
  unfolding make_all all_made attempts
  make_all-unmade [] path t h = cc
  make_all-unmade (d ∷ ds) path t h = elim (Bool-cases (is_made t d)) [
    | inl e ↦
        let (cut, found) = make_all-unmade ds path (mkdir d ∷ t) (ground arith) in
        (cut, ground arith)
    | inr e ↦ (d, ground arith)
  ]

  pub mkdir_path-made :
      (path : Bytes) (t : List Effect)
      → all_made (folders path) t ≡ true
      → mkdir_path env path t ≡ ok ((0, path), attempts (folders path) t)
  mkdir_path-made path t h = mkdir_path-make_all path t ∙ make_all-made (folders path) path t h

  pub mkdir_path-unmade :
      (path : Bytes) (t : List Effect)
      → all_made (folders path) t ≡ false
      → (d : Bytes) × (mkdir_path env path t ≡ ok ((1, d), attempts (folders path) t))
  mkdir_path-unmade path t h =
      let (d, e) = make_all-unmade (folders path) path t h in (d, mkdir_path-make_all path t ∙ e)

  -- The directories above a file.
  make_parents-below :
      (a b : Bytes) (t : List Effect)
      → has b'/' b ≡ false
      → make_parents env (a ++ (b'/' ∷ b)) t
        ≡ ok (if all_made (folders a) t then 0 else 1, attempts (folders a) t)
  unfolding make_parents mkdir_path
  make_parents-below a b t free =
      rw (strrchr-append b'/' a b free, make_parents)
        (rw (take-append a (b'/' ∷ b)) (elim (Bool-cases (all_made (folders a) t)) [
          | inl e ↦ rw e (exec_bind-ok (mkdir_path env a) (λ r. pure r.0) t (mkdir_path-made a t e))
          | inr e ↦
              rw e (exec_bind-ok (mkdir_path env a) (λ r. pure r.0) t (mkdir_path-unmade a t e).1)
        ]))

  -- `fopen_with_path` on a file in a directory makes the directories above the file, the outermost
  -- first. If each is made or exists, the file is opened in its mode and the result is that of
  -- `fopen`; otherwise it stops at the first that fails and opens nothing.
  pub fopen_with_path-below :
      (a b mode : Bytes) (t : List Effect)
      → has b'/' b ≡ false
      → fopen_with_path env (a ++ (b'/' ∷ b)) mode t ≡ (
          if all_made (folders a) t
          then ok (
            env.opens (attempts (folders a) t) (open_file (a ++ (b'/' ∷ b)) mode),
            open_file (a ++ (b'/' ∷ b)) mode ∷ attempts (folders a) t,
          )
          else ok (false, attempts (folders a) t))
  unfolding fopen_with_path
  fopen_with_path-below a b mode t free = rw (make_parents-below a b t free, ◌>>=◌) (ground arith)
