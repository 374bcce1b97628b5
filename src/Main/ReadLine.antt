-- ===== src/Main/ReadLine.antt =====
-- src/osmud.c: `readLine`.
use osmud.Prelude.{
  ℕ, ◌+◌, List, [], ◌∷◌, Outcome, ok, fault, ◌>>=◌, out_of_bounds, if◌then◌else◌, ◌==◌, ltb, length,
  set,
}
use osmud.CString.{Bytes}

-- A write to a cell of the buffer.
abbrev pub write_at : List ℕ → ℕ → ℕ → Outcome (List ℕ)
write_at buffer k c = if ltb k (length buffer) then ok (set buffer k c) else fault out_of_bounds

-- The loop of `readLine` with `k` bytes stored, on what the file has left. The result is `k` with
-- the buffer and what is left. At the end of the file `t` stays 0 and is stored. A `read` that
-- fails is not modelled.
unfoldable pub read_loop : ℕ → List ℕ → ℕ → Bytes → Outcome (ℕ × List ℕ × Bytes)
read_loop max_line_length buffer k [] =
    if ltb k max_line_length
    then (write_at buffer k 0 >>= λ b. ok (k + 1, b, []))
    else ok (k, buffer, [])
read_loop max_line_length buffer k (t ∷ ts) =
    if t == 10
    then (write_at buffer k 0 >>= λ b. ok (k, b, ts))
    else if ltb k max_line_length
    then (write_at buffer k t >>= λ b. read_loop max_line_length b (k + 1) ts)
    else ok (k, buffer, ts)

unfoldable pub read_line : List ℕ → ℕ → Bytes → Outcome (ℕ × List ℕ × Bytes)
unfolding read_loop
read_line buffer max_line_length fd = read_loop max_line_length buffer 0 fd
