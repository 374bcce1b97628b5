-- ===== src/Comms.antt =====
-- src/comms.c: fetching a file with libcurl. The transfer writes through `write_data` to the output
-- file.
use osmud.Prelude.{ℕ, Bool, true, false, not, Option, null_dereference}
use osmud.CString.{Bytes}
use osmud.Outside.{
  Env, Exec, curl_init, create_file, transfer, call, open_by, deref, pure, crash, ◌>>=◌,
}

-- The stream is used and closed whether it was opened or not.
unfoldable pub close_output : Bool → ℕ → Exec ℕ
close_output true retval = pure retval
close_output false retval = crash null_dereference

module _ (env : Env) (no_fail_on_mud_validation : Bool) where
  -- inside `if(curl)`
  unfoldable pub fetch : Option Bytes → Option Bytes → Exec ℕ
  unfolding close_output
  fetch mud_file output_file = do
    url ← deref mud_file
    file ← deref output_file
    opened ← open_by env (create_file file)
    retval ← call env (transfer url file (not no_fail_on_mud_validation))
    close_output opened retval

  -- With no handle the result is `CURLE_OK`, and nothing is fetched.
  unfoldable pub begin_fetch : Bool → Option Bytes → Option Bytes → Exec ℕ
  begin_fetch true mud_file output_file = fetch mud_file output_file
  begin_fetch false mud_file output_file = pure 0

  unfoldable pub get_open_mud_file : Option Bytes → Option Bytes → Exec ℕ
  unfolding fetch begin_fetch
  get_open_mud_file mud_file output_file = do
    curl ← open_by env curl_init
    begin_fetch curl mud_file output_file
