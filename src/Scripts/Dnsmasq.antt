-- ===== src/Scripts/Dnsmasq.antt =====
-- src/dnsmasq/detect_new_device.sh: the line that it writes for a call of dnsmasq.
use mathlib.Core.List.{append_assoc}
use osmud.Prelude.{
  ℕ, Bool, false, Option, none, some, List, [], ◌∷◌, ◌++◌, ◌≡◌, ◌≢◌, sym, ap, ◌∙◌, All, ok, arith,
  if◌then◌else◌,
}
use osmud.CString.{Bytes, codes, str_eq, has}
use osmud.CString.Tokens.{words}
use osmud.DhcpEvent.{
  DhcpEvent, DhcpAction, new_action, old_action, del_action, none_action,
  process_dhcp_event_from_log, get_dhcp_event_text,
}
use osmud.DhcpEvent.RoundTrip.{Lease, IsPrintable, event_line, leased, process-event_line}
use osmud.Scripts.Shell.{is_blank, any_byte, words-word}
use osmud.Scripts.Getopts.{is_missing}

-- What dnsmasq sets in the environment, and its four arguments.
pub record Call : Type 0 where
  pub requested_options : Bytes
  pub vendor_class : Bytes
  pub mud_url : Bytes
  pub action : Bytes
  pub mac_address : Bytes
  pub ip_address : Bytes
  pub device_name : Bytes

-- what `uci get` and `date` give
pub record Host : Type 0 where
  pub hostname : Bytes
  pub domain : Bytes
  pub date : Bytes

-- "-" for a variable that is empty
unfoldable pub dash_for_missing : Bytes → Bytes
dash_for_missing v = if is_missing v then codes "-" else v

-- `msg`, for the text of an action
unfoldable pub msg : Bytes → Host → Call → Bytes
unfolding dash_for_missing
msg action h c =
    b'|'
    ∷ (action
        ++ (b'|'
            ∷ (h.hostname
                ++ (b'.'
                    ∷ (h.domain
                        ++ (codes "|DHCP|"
                            ++ (dash_for_missing c.requested_options
                                ++ (codes "|MUD|"
                                    ++ (dash_for_missing c.mud_url
                                        ++ (b'|'
                                            ∷ (dash_for_missing c.vendor_class
                                                ++ (b'|'
                                                    ∷ (c.mac_address
                                                        ++ (b'|'
                                                            ∷ (c.ip_address
                                                            ++ (b'|'
                                                            ∷ (c.device_name
                                                            ++ (b'|' ∷ []))))))))))))))))))

-- words with a blank between them, as `echo` prints them
unfoldable pub echo : List Bytes → Bytes
echo [] = []
echo (w ∷ []) = w
echo (w ∷ v ∷ more) = w ++ (b' ' ∷ echo (v ∷ more))

abbrev pub concat : List (List Bytes) → List Bytes
concat [] = []
concat (l ∷ more) = l ++ concat more

abbrev pub map_words : (Bytes → List Bytes) → List Bytes → List (List Bytes)
map_words f [] = []
map_words f (w ∷ more) = f w ∷ map_words f more

-- The line for a text of an action. It is not quoted: it is split into words, and each word is
-- taken for a pattern of file names, which `expand` gives.
unfoldable pub line_for : (Bytes → List Bytes) → Host → Call → Bytes → Bytes
unfolding msg echo
line_for expand h c action =
    echo (concat (map_words expand (words is_blank (h.date ++ msg action h c))))

-- the three branches on the first argument
unfoldable pub select_lines : (Bytes → Bytes) → Bytes → List Bytes
select_lines line argument =
    (if str_eq argument (codes "add") then line (codes "NEW") ∷ [] else [])
    ++ ((if str_eq argument (codes "old") then line (codes "OLD") ∷ [] else [])
        ++ (if str_eq argument (codes "del") then line (codes "DEL") ∷ [] else []))

-- The lines that the script appends to /var/log/dhcpmasq.txt.
unfoldable pub detect_new_device : (Bytes → List Bytes) → Host → Call → List Bytes
unfolding line_for select_lines
detect_new_device expand h c = select_lines (line_for expand h c) c.action

-- the argument of dnsmasq for an action
abbrev pub argument_of : DhcpAction → Option Bytes
argument_of none_action = none
argument_of new_action = some (codes "add")
argument_of old_action = some (codes "old")
argument_of del_action = some (codes "del")

-- what the script knows of the lease
abbrev pub lease_of : Host → Call → Lease
lease_of h c = record {
  date = h.date;
  lan_device = h.hostname ++ (b'.' ∷ h.domain);
  requested_options = dash_for_missing c.requested_options;
  mud_url = dash_for_missing c.mud_url;
  vendor_class = dash_for_missing c.vendor_class;
  mac_address = c.mac_address;
  ip_address = c.ip_address;
  host_name = c.device_name;
}

-- a byte that makes a word a pattern of file names
abbrev pub is_pattern : ℕ → Bool
is_pattern c = has c (codes "*?[\\")

free_bytes : (p : ℕ → Bool) (s : Bytes) → any_byte p s ≡ false → All (λ c. p c ≡ false) s
unfolding any_byte
free_bytes p [] h = tt
free_bytes p (c ∷ cs) h = (ground (arith, h), free_bytes p cs (ground (arith, h)))

append-ne_nil : (a : Bytes) (c : ℕ) (b : Bytes) → a ++ (c ∷ b) ≢ []
append-ne_nil [] c b e = cc e
append-ne_nil (x ∷ a) c b e = cc e

msg-event_line :
    (action : DhcpAction) (h : Host) (c : Call)
    → h.date ++ msg (get_dhcp_event_text action) h c ≡ event_line action (lease_of h c)
unfolding msg event_line
msg-event_line action h c =
    ap (λ r. h.date ++ (b'|' ∷ (get_dhcp_event_text action ++ (b'|' ∷ r))))
      (sym (append_assoc h.hostname (b'.' ∷ h.domain) _))

selected :
    (action : DhcpAction) (line : Bytes → Bytes) (argument : Bytes)
    → argument_of action ≡ some argument
    → select_lines line argument ≡ line (get_dhcp_event_text action) ∷ []
unfolding select_lines str_eq get_dhcp_event_text
selected none_action line argument h = cc
selected new_action line argument h =
    let e : codes "add" ≡ argument = cc in ap (select_lines line) (sym e)
selected old_action line argument h =
    let e : codes "old" ≡ argument = cc in ap (select_lines line) (sym e)
selected del_action line argument h =
    let e : codes "del" ≡ argument = cc in ap (select_lines line) (sym e)

module _ (expand : Bytes → List Bytes)
    (literal : (w : Bytes) → any_byte is_pattern w ≡ false → expand w ≡ w ∷ []) where
  echo-line :
      (line : Bytes)
      → line ≢ []
      → any_byte is_blank line ≡ false
      → any_byte is_pattern line ≡ false
      → echo (concat (map_words expand (words is_blank line))) ≡ line
  unfolding echo
  echo-line line full blank pattern =
      ap (λ ws. echo (concat (map_words expand ws)))
        (words-word line (record { free = free_bytes is_blank line blank; ne_nil = full }))
      ∙ ap (λ ws. echo (ws ++ [])) (literal line pattern)

  line_for-event_line :
      (action : DhcpAction) (h : Host) (c : Call)
      → any_byte is_blank (event_line action (lease_of h c)) ≡ false
      → any_byte is_pattern (event_line action (lease_of h c)) ≡ false
      → line_for expand h c (get_dhcp_event_text action) ≡ event_line action (lease_of h c)
  unfolding line_for event_line
  line_for-event_line action h c blank pattern =
      ap (λ line. echo (concat (map_words expand (words is_blank line))))
        (msg-event_line action h c)
      ∙ echo-line (event_line action (lease_of h c)) (append-ne_nil h.date b'|' _) blank pattern

  -- What dnsmasq reports reaches the program: for each of its three actions, where the fields of
  -- the line are not empty and hold no delimiter and the line has no blank and no byte of a
  -- pattern, where a text without such a byte expands to itself: the script appends one line, and
  -- the program reads it into the event with that action and those fields, with "-" for what
  -- dnsmasq did not set; a MUD URL of one byte, as this "-", is dropped.
  pub process_dhcp_event_from_log-detect_new_device :
      (action : DhcpAction) (h : Host) (c : Call) (event : DhcpEvent)
      → argument_of action ≡ some c.action
      → IsPrintable (lease_of h c)
      → any_byte is_blank (event_line action (lease_of h c)) ≡ false
      → any_byte is_pattern (event_line action (lease_of h c)) ≡ false
      → (line : Bytes) × (detect_new_device expand h c ≡ line ∷ [])
        × (process_dhcp_event_from_log (some line) event
            ≡ ok (1, leased action (lease_of h c) event))
  unfolding detect_new_device
  process_dhcp_event_from_log-detect_new_device action h c event at printable blank pattern = (
    event_line action (lease_of h c),
    selected action (line_for expand h c) c.action at
        ∙ ap (λ l. l ∷ []) (line_for-event_line action h c blank pattern),
    process-event_line action (lease_of h c) event printable,
  )
