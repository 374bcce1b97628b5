-- ===== src/Utils/Paths.antt =====
-- src/oms_utils.c: `writeStringToFile`, `mkdir_path` and `fopen_with_path`, and `createMudfileStorage` of
-- src/openwrt/openwrt.c.
use osmud.Prelude.{
  ℕ, zero, suc, Bool, false, ◌||◌, Option, none, some, [], ◌∷◌, ◌++◌, ◌==◌, if◌then◌else◌, take,
  drop, length,
}
use osmud.CString.{Bytes, strrchr}
use osmud.Outside.{
  create_file, print_to, Env, Exec, mkdir, open_file, call, open_by, pure, ◌>>=◌, ◌>>◌,
}

-- `EEXIST`
abbrev pub eexist : ℕ
eexist = 17

module _ (env : Env) where
  -- behind the recursion: the directory itself, where the path is not empty
  unfoldable pub make_last : Bytes → Exec (ℕ × Bytes)
  make_last [] = pure (0, [])
  make_last (c ∷ cs) = do
    error ← call env (mkdir (c ∷ cs))
    pure (if error == 0 || error == eexist then 0 else 1, c ∷ cs)

  -- behind the recursive call: the path is put together again where the call returned 0
  unfoldable pub make_rest : Bytes → ℕ × Bytes → Exec (ℕ × Bytes)
  unfolding make_last
  make_rest after (zero, before) = make_last (before ++ (b'/' ∷ after))
  make_rest after (suc result, before) = pure (1, before)

  -- The path is cut at its last "/" for the recursive call. The fuel bounds the depth of the
  -- recursion: a path is longer than what is before its last "/", so its length is enough. The
  -- result is the `int`, and the path that is left.
  unfoldable pub mkdir_levels : ℕ → Bytes → Exec (ℕ × Bytes)
  unfolding make_last make_rest
  mkdir_levels zero path = make_last path
  mkdir_levels (suc n) path = elim (strrchr b'/' path) [
    | none ↦ make_last path
    | some sep ↦ mkdir_levels n (take sep path) >>= make_rest (drop (suc sep) path)
  ]

  unfoldable pub mkdir_path : Bytes → Exec (ℕ × Bytes)
  unfolding mkdir_levels
  mkdir_path path = mkdir_levels (length path) path

  -- The directories are made in a copy of the path.
  unfoldable pub make_parents : Bytes → Exec ℕ
  unfolding mkdir_path
  make_parents path = elim (strrchr b'/' path) [
    | none ↦ pure 0
    | some sep ↦ mkdir_path (take sep path) >>= λ result. pure result.0
  ]

  -- Is the file open?
  unfoldable pub fopen_with_path : Bytes → Bytes → Exec Bool
  unfolding make_parents
  fopen_with_path path mode = do
    result ← make_parents path
    if result == 0 then open_by env (open_file path mode) else pure false

  -- The result, and what is left of the path.
  unfoldable pub create_mudfile_storage : Bytes → Exec (ℕ × Bytes)
  unfolding mkdir_path
  create_mudfile_storage mud_file_data_location_info = mkdir_path mud_file_data_location_info

  -- `writeStringToFile`: 1 where the text was written.
  unfoldable pub write_string_to_file : Option Bytes → Option Bytes → Exec ℕ
  write_string_to_file (some buf) (some output_file_name) = do
    opened ← open_by env (create_file output_file_name)
    if opened then call env (print_to output_file_name buf) >> pure 1 else pure 0
  write_string_to_file _ _ = pure 0
