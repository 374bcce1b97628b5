-- ===== src/DhcpEvent/Context.antt =====
-- `buildDhcpEventContext` of src/dhcp_event.c, and the buffers of the handlers that it prints to.
use osmud.Prelude.{
  ◌∙◌, sym, ℕ, ◌+◌, ◌≤◌, ◌<◌, Bool, some, List, [], ◌∷◌, ◌++◌, ◌≡◌, refl, ok, arith, length,
  length-append, leb, ltb, get_elem?, Bool-cases, inl, inr,
}
use osmud.CString.{Bytes, shown, codes}
use osmud.CString.Tokens.{words, words_from, flush}
use osmud.DhcpEvent.{
  DhcpEvent, array_size, build_dhcp_event_context, is_delimiter, process_dhcp_event_from_log,
}
use osmud.DhcpEvent.Reading.{tokens, event_of, process_dhcp_event_from_log_lem}

-- the size of `logMsgBuf` in the handlers
abbrev pub log_msg_buf_size : ℕ
log_msg_buf_size = 4096

-- the bytes of all words
total : List Bytes → ℕ
total [] = 0
total (w ∷ ws) = length w + total ws

total-flush : (w : Bytes) (ws : List Bytes) → total (flush w ws) ≡ length w + total ws
unfolding total flush
total-flush [] ws = omega arith
total-flush (c ∷ cs) ws = refl

total-words_from :
    (delim : ℕ → Bool) (s w : Bytes) → total (words_from delim w s) ≤ length w + length s
unfolding words_from total
total-words_from delim [] w = let last = total-flush w [] in omega arith
total-words_from delim (c ∷ cs) w =
    let cut = total-words_from delim cs [] in
    let first = total-flush w (words_from delim [] cs) in
    let longer = total-words_from delim cs (w ++ (c ∷ [])) in
    let n = length-append w (c ∷ []) in
    elim (Bool-cases (delim c)) [
      | inl e ↦ rw (e, words_from) (omega arith)
      | inr e ↦ rw (e, words_from) (omega arith)
    ]

total-words : (line : Bytes) → total (tokens line) ≤ length line
unfolding words
total-words line = omega (arith, total-words_from is_delimiter line [])

-- The words of the two addresses have no more bytes than the text.
two-total :
    (ws : List Bytes)
    → 10 ≤ length ws
    → length (shown (get_elem? ws 8)) + length (shown (get_elem? ws 9)) ≤ total ws
unfolding total shown
two-total (a ∷ b ∷ c ∷ d ∷ e ∷ f ∷ g ∷ h ∷ i ∷ j ∷ ws) p = omega arith
two-total _ p = absurd (omega arith)

length-build_dhcp_event_context :
    (action : Bytes) (event : DhcpEvent)
    → length (build_dhcp_event_context action event)
      ≡ length action + 27 + (length (shown event.ip_address) + length (shown event.mac_address))
unfolding build_dhcp_event_context
length-build_dhcp_event_context action event =
    let ip = shown event.ip_address in
    let mac = shown event.mac_address in
    let text = codes ", MAC: " ++ mac in
    let outer = length-append action (codes " Device Action: IP: " ++ (ip ++ text)) in
    let inner = length-append ip text in omega arith

-- An event that was read has its two addresses from two words of the line.
addresses-total :
    (line : Bytes) (before : DhcpEvent) {n : ℕ} {event : DhcpEvent}
    → process_dhcp_event_from_log (some line) before ≡ ok (n, event)
    → length (shown event.mac_address) + length (shown event.ip_address) ≤ total (tokens line)
addresses-total line before {n} {event} h =
    let ws = tokens line in
    let e = sym (process_dhcp_event_from_log_lem line before) ∙ h in
    elim (Bool-cases (leb array_size (length ws))) [
      | inl many ↦ let bad = rw many at e in cc
      | inr fine ↦
          let e' = rw fine at e in
          elim (Bool-cases (ltb (length ws) 10)) [
            | inl few ↦ let bad = rw few at e' in cc
            | inr enough ↦
                let e'' = rw enough at e' in
                let same : event ≡ event_of ws before = cc in rw same (two-total ws (ground arith))
          ]
    ]

-- For a line that fits the buffer of 1024 bytes of `readLine`, and the name of an action, which has
-- three letters, the message on the event that was read from the line has at most 30 bytes more
-- than the line, so with its NUL it fits the 4096 bytes of `logMsgBuf`.
pub build_dhcp_event_context-fits :
    (action line : Bytes) (before : DhcpEvent) {n : ℕ} {event : DhcpEvent}
    → length action ≡ 3
    → length line < 1024
    → process_dhcp_event_from_log (some line) before ≡ ok (n, event)
    → (length (build_dhcp_event_context action event) ≤ 30 + length line)
      × (length (build_dhcp_event_context action event) < log_msg_buf_size)
build_dhcp_event_context-fits action line before {n} {event} three short h =
    let printed = length-build_dhcp_event_context action event in
    let read = addresses-total line before h in
    let room = total-words line in (omega arith, omega arith)
