-- ===== src/Main/Lines.antt =====
-- What `readLine` makes of a line, and of the end of the file.
use mathlib.Core.List.{append_assoc}
use osmud.Prelude.{
  ℕ, suc, ◌+◌, true, false, List, [], ◌∷◌, ◌++◌, ◌≡◌, refl, sym, ap, ◌∙◌, arith, Outcome, ok, fault,
  ◌>>=◌, out_of_bounds, if◌then◌else◌, ◌==◌, ltb, length, set, take, drop, All, length-append,
}
use osmud.CString.{Bytes}
use osmud.Main.ReadLine.{read_loop, read_line, write_at}

-- The line without its newline.
abbrev pub IsLine : Bytes → Type 0
IsLine line = All (λ c. (c == 10) ≡ false) line

set-append :
    (pre : List ℕ) (b c : ℕ) (bs : List ℕ) → set (pre ++ (b ∷ bs)) (length pre) c ≡ pre ++ (c ∷ bs)
set-append [] b c bs = refl
set-append (x ∷ pre) b c bs = ap (◌∷◌ x) (set-append pre b c bs)

write_at-append :
    (pre : List ℕ) (b c : ℕ) (bs : List ℕ)
    → write_at (pre ++ (b ∷ bs)) (length pre) c ≡ ok (pre ++ (c ∷ bs))
write_at-append pre b c bs =
    rw (length-append pre (b ∷ bs)) (rw (set-append pre b c bs) (ground arith))

write_at-full : (pre : List ℕ) (c : ℕ) → write_at (pre ++ []) (length pre) c ≡ fault out_of_bounds
write_at-full pre c = rw (length-append pre []) (ground arith)

-- Where the cells behind `k` are `cells`, the loop stores a line in them, and NUL behind it.
abbrev pub Stored : List ℕ → List ℕ → Bytes → Bytes → Outcome (ℕ × List ℕ × Bytes)
Stored pre cells line rest =
    if ltb (length line) (length cells)
    then ok (length pre + length line, pre ++ (line ++ (0 ∷ drop (suc (length line)) cells)), rest)
    else if length line == length cells
    then fault out_of_bounds
    else ok (
      length pre + length cells,
      pre ++ take (length cells) line,
      drop (suc (length cells)) line ++ (10 ∷ rest),
    )

Stored-step :
    (pre : List ℕ) (b c : ℕ) (bs : List ℕ) (cs rest : Bytes)
    → Stored (pre ++ (c ∷ [])) bs cs rest ≡ Stored pre (b ∷ bs) (c ∷ cs) rest
Stored-step pre b c bs cs rest =
    rw
      (
        length-append pre (c ∷ []),
        append_assoc pre (c ∷ []) (cs ++ (0 ∷ drop (suc (length cs)) bs)),
        append_assoc pre (c ∷ []) (take (length bs) cs),
      )
      (ground arith)

loop-byte :
    (max k c : ℕ) (buffer ts : List ℕ) {b : List ℕ}
    → (c == 10) ≡ false
    → ltb k max ≡ true
    → write_at buffer k c ≡ ok b
    → read_loop max buffer k (c ∷ ts) ≡ read_loop max b (k + 1) ts
unfolding read_loop
loop-byte max k c buffer ts other less e = rw other (rw less (rw e refl))

loop-full :
    (max k c : ℕ) (buffer ts : List ℕ)
    → (c == 10) ≡ false
    → ltb k max ≡ false
    → read_loop max buffer k (c ∷ ts) ≡ ok (k, buffer, ts)
unfolding read_loop
loop-full max k c buffer ts other more = rw other (rw more refl)

loop-newline :
    (max k : ℕ) (buffer ts : List ℕ)
    → read_loop max buffer k (10 ∷ ts) ≡ (write_at buffer k 0 >>= λ b. ok (k, b, ts))
unfolding read_loop
loop-newline max k buffer ts = refl

read_loop-Stored :
    (max : ℕ) (pre cells : List ℕ) (line rest : Bytes)
    → IsLine line
    → max ≡ length pre + length cells
    → read_loop max (pre ++ cells) (length pre) (line ++ (10 ∷ rest)) ≡ Stored pre cells line rest
read_loop-Stored max pre [] [] rest h e =
    loop-newline max (length pre) (pre ++ []) rest ∙ rw (write_at-full pre 0) refl
read_loop-Stored max pre (b ∷ bs) [] rest h e =
    loop-newline max (length pre) (pre ++ (b ∷ bs)) rest
    ∙ rw (write_at-append pre b 0 bs) (ground arith)
read_loop-Stored max pre [] (c ∷ cs) rest h e =
    loop-full max (length pre) c (pre ++ []) (cs ++ (10 ∷ rest)) h.0 (ground arith) ∙ ground arith
read_loop-Stored max pre (b ∷ bs) (c ∷ cs) rest h e =
    loop-byte max (length pre) c (pre ++ (b ∷ bs)) (cs ++ (10 ∷ rest)) h.0 (ground arith)
      (write_at-append pre b c bs)
    ∙ rw (sym (append_assoc pre (c ∷ []) bs), sym (length-append pre (c ∷ [])))
        (read_loop-Stored max (pre ++ (c ∷ [])) bs cs rest h.1
          (omega (arith, e, length-append pre (c ∷ []))))
    ∙ Stored-step pre b c bs cs rest

-- What the loop stores of a file that ends without a newline.
abbrev EndStored : List ℕ → List ℕ → Bytes → Outcome (ℕ × List ℕ × Bytes)
EndStored pre cells part =
    if ltb (length part) (length cells)
    then ok
        (suc (length pre + length part), pre ++ (part ++ (0 ∷ drop (suc (length part)) cells)), [])
    else ok
        (length pre + length cells, pre ++ take (length cells) part, drop (suc (length cells)) part)

EndStored-step :
    (pre : List ℕ) (b c : ℕ) (bs : List ℕ) (cs : Bytes)
    → EndStored (pre ++ (c ∷ [])) bs cs ≡ EndStored pre (b ∷ bs) (c ∷ cs)
EndStored-step pre b c bs cs =
    rw
      (
        length-append pre (c ∷ []),
        append_assoc pre (c ∷ []) (cs ++ (0 ∷ drop (suc (length cs)) bs)),
        append_assoc pre (c ∷ []) (take (length bs) cs),
      )
      (ground arith)

loop-end :
    (max k : ℕ) (buffer : List ℕ) {b : List ℕ}
    → ltb k max ≡ true
    → write_at buffer k 0 ≡ ok b
    → read_loop max buffer k [] ≡ ok (k + 1, b, [])
unfolding read_loop
loop-end max k buffer less e = rw less (rw e refl)

loop-end_full :
    (max k : ℕ) (buffer : List ℕ)
    → ltb k max ≡ false
    → read_loop max buffer k [] ≡ ok (k, buffer, [])
unfolding read_loop
loop-end_full max k buffer more = rw more refl

read_loop-EndStored :
    (max : ℕ) (pre cells : List ℕ) (part : Bytes)
    → IsLine part
    → max ≡ length pre + length cells
    → read_loop max (pre ++ cells) (length pre) part ≡ EndStored pre cells part
read_loop-EndStored max pre [] [] h e =
    loop-end_full max (length pre) (pre ++ []) (ground arith) ∙ ground arith
read_loop-EndStored max pre (b ∷ bs) [] h e =
    loop-end max (length pre) (pre ++ (b ∷ bs)) (ground arith) (write_at-append pre b 0 bs)
    ∙ ground arith
read_loop-EndStored max pre [] (c ∷ cs) h e =
    loop-full max (length pre) c (pre ++ []) cs h.0 (ground arith) ∙ ground arith
read_loop-EndStored max pre (b ∷ bs) (c ∷ cs) h e =
    loop-byte max (length pre) c (pre ++ (b ∷ bs)) cs h.0 (ground arith)
      (write_at-append pre b c bs)
    ∙ rw (sym (append_assoc pre (c ∷ []) bs), sym (length-append pre (c ∷ [])))
        (read_loop-EndStored max (pre ++ (c ∷ [])) bs cs h.1
          (omega (arith, e, length-append pre (c ∷ []))))
    ∙ EndStored-step pre b c bs cs

-- `readLine` with the length of its buffer. A line that is shorter is stored with a NUL behind it,
-- and its length is returned. For a line of that length the NUL is written behind the buffer. Of a
-- longer line the buffer takes what fits, without a NUL, one more byte is lost, and the rest of it
-- is left as the next line.
pub read_line_lem :
    (buffer : List ℕ) (line rest : Bytes)
    → IsLine line
    → read_line buffer (length buffer) (line ++ (10 ∷ rest)) ≡ (
        if ltb (length line) (length buffer)
        then ok (length line, line ++ (0 ∷ drop (suc (length line)) buffer), rest)
        else if length line == length buffer
        then fault out_of_bounds
        else ok (
          length buffer,
          take (length buffer) line,
          drop (suc (length buffer)) line ++ (10 ∷ rest),
        ))
unfolding read_line
read_line_lem buffer line rest h =
    read_loop-Stored (length buffer) [] buffer line rest h (omega arith) ∙ ground arith

-- `readLine` at the end of a file whose last line is not written to its end yet. A part that is
-- shorter than the buffer is stored with a NUL and taken off the file as if it were a line, with
-- one more than its length as the result. Of any other part the buffer takes what fits, without a
-- NUL, and one more byte, if there is one, is lost.
pub read_line-end :
    (buffer : List ℕ) (part : Bytes)
    → IsLine part
    → read_line buffer (length buffer) part ≡ (
        if ltb (length part) (length buffer)
        then ok (suc (length part), part ++ (0 ∷ drop (suc (length part)) buffer), [])
        else ok (length buffer, take (length buffer) part, drop (suc (length buffer)) part))
unfolding read_line
read_line-end buffer part h =
    read_loop-EndStored (length buffer) [] buffer part h (omega arith) ∙ ground arith
