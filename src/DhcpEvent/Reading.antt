-- ===== src/DhcpEvent/Reading.antt =====
-- What `processDhcpEventFromLog` reads from a line, by the number of tokens that it holds.
use osmud.Prelude.{
  ℕ, zero, suc, ◌<◌, ◌≡◌, refl, Option, none, some, List, [], ◌∷◌, ok, fault, out_of_bounds,
  uninitialized, arith, ltb, leb, if◌then◌else◌, length, get_elem?, replicate,
}
use osmud.CString.{Bytes, Slot, unwritten, written}
use osmud.CString.Tokens.{strtok, words, strtok-Continues, Continues}
use osmud.DhcpEvent.{
  DhcpEvent, is_delimiter, fill_array, array_at, array_size, usable_url,
  get_dhcp_event_action_class, process_dhcp_event_from_log,
}

-- The tokens of a line.
abbrev pub tokens : Bytes → List Bytes
tokens = words is_delimiter

-- The array with these tokens in it.
slots_of : ℕ → List Bytes → List Slot
slots_of zero ws = []
slots_of (suc room) [] = written none ∷ replicate room unwritten
slots_of (suc room) (w ∷ ws) = written (some w) ∷ slots_of room ws

-- What the loop makes of a position, by the words that stand there.
abbrev Fills : ℕ → Bytes → Type 0
Fills room s =
    fill_array room s
    ≡ (if ltb (length (tokens s)) room then ok (slots_of room (tokens s)) else fault out_of_bounds)

fill_array-step :
    (room : ℕ) (s : Bytes) (o : Option (Bytes × Bytes))
    → strtok is_delimiter s ≡ o
    → Continues is_delimiter o (tokens s)
    → ((rest : Bytes) → Fills room rest)
    → Fills (suc room) s
unfolding fill_array slots_of
fill_array-step room s none e h ih = rw (h, e, fill_array) (ground arith)
fill_array-step room s (some (t, rest)) e h ih = rw (h, e, fill_array) (ground (arith, ih rest))

fill_array_lem : (room : ℕ) (s : Bytes) → Fills room s
unfolding fill_array
fill_array_lem zero s = ground arith
fill_array_lem (suc room) s =
    fill_array-step room s (strtok is_delimiter s) refl (strtok-Continues is_delimiter s)
      (fill_array_lem room)

array_at-unwritten :
    (i room : ℕ) → i < room → array_at (replicate room unwritten) i ≡ fault uninitialized
unfolding array_at
array_at-unwritten i zero h = elim h [ ]
array_at-unwritten zero (suc room) h = refl
array_at-unwritten (suc i) (suc room) h = array_at-unwritten i room (omega arith)

-- Element `i` holds token `i`, behind the last token NULL, and from there on nothing.
array_at-slots_of :
    (i room : ℕ) (ws : List Bytes)
    → i < room
    → array_at (slots_of room ws) i
      ≡ (if leb i (length ws) then ok (get_elem? ws i) else fault uninitialized)
unfolding array_at slots_of
array_at-slots_of i zero ws h = elim h [ ]
array_at-slots_of zero (suc room) [] h = refl
array_at-slots_of zero (suc room) (w ∷ ws) h = ground arith
array_at-slots_of (suc i) (suc room) [] h = ground (arith, array_at-unwritten i room)
array_at-slots_of (suc i) (suc room) (w ∷ ws) h = ground (arith, array_at-slots_of i room ws)

-- A text of two bytes or more, and NULL for any other.
abbrev pub two_or_more : Option Bytes → Option Bytes
two_or_more (some (c ∷ d ∷ rest)) = some (c ∷ d ∷ rest)
two_or_more _ = none

usable_url-two_or_more : (url : Option Bytes) → usable_url url ≡ two_or_more url
unfolding usable_url
usable_url-two_or_more none = refl
usable_url-two_or_more (some []) = refl
usable_url-two_or_more (some (c ∷ [])) = refl
usable_url-two_or_more (some (c ∷ d ∷ rest)) = ground arith

-- The event that the tokens describe.
abbrev pub event_of : List Bytes → DhcpEvent → DhcpEvent
event_of ws event = record event {
  action = get_dhcp_event_action_class (get_elem? ws 1);
  date = get_elem? ws 0;
  lan_device = written (get_elem? ws 2);
  dhcp_request_flags = get_elem? ws 4;
  dhcp_vendor = get_elem? ws 7;
  mac_address = get_elem? ws 8;
  ip_address = get_elem? ws 9;
  host_name = get_elem? ws 10;
  mud_file_url = two_or_more (get_elem? ws 6);
}

-- A line with 10 to 19 tokens, divided at "|", tab, newline and return but not at blanks, is read
-- into the event that its tokens describe. With fewer an element is read that nothing was stored
-- in, and with more the loop writes behind `array`.
pub process_dhcp_event_from_log_lem :
    (line : Bytes) (event : DhcpEvent)
    → process_dhcp_event_from_log (some line) event ≡ (
        if leb array_size (length (tokens line))
        then fault out_of_bounds
        else if ltb (length (tokens line)) 10
        then fault uninitialized
        else ok (1, event_of (tokens line) event))
unfolding process_dhcp_event_from_log
process_dhcp_event_from_log_lem line event =
    let ws = tokens line in
    rw (fill_array_lem array_size line) (
      ground (
        arith,
        array_at-slots_of 1 20 ws,
        array_at-slots_of 0 20 ws,
        array_at-slots_of 2 20 ws,
        array_at-slots_of 4 20 ws,
        array_at-slots_of 7 20 ws,
        array_at-slots_of 8 20 ws,
        array_at-slots_of 9 20 ws,
        array_at-slots_of 10 20 ws,
        array_at-slots_of 6 20 ws,
        usable_url-two_or_more (get_elem? ws 6),
      ))
