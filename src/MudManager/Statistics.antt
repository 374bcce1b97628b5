-- ===== src/MudManager/Statistics.antt =====
-- src/mud_manager.c: `buildDhcpEventsLogMsg`, and `dumpStatsToLog` of src/osmud.c.
use osmud.Prelude.{ℕ, ◌<◌, ◌≤◌, ◌≡◌, refl, arith, some, ◌++◌, length, length-append, take_all}
use osmud.CString.{Bytes, codes, snprintf}
use osmud.CString.Decimal.{decimal, decimal-length}
use osmud.Logging.{SeverityClass, oms_info}
use osmud.Logging.Entries.{Tm, oms_subsys_general, log_oms_general_message}
use osmud.MudManager.{Counters}

-- the text, before it is cut at the size of the buffer
abbrev pub statistics : Counters → Bytes
statistics c =
    codes "OSMUD:DHCP Stats: New: "
    ++ decimal c.new_events
    ++ codes " | Old: "
    ++ decimal c.old_events
    ++ codes " | Delete: "
    ++ decimal c.delete_events
    ++ codes " | Errors: "
    ++ decimal c.error_events

unfoldable pub build_dhcp_events_log_msg : ℕ → Counters → Bytes
build_dhcp_events_log_msg buf_size c = snprintf buf_size (statistics c)

-- what is written to the log
unfoldable pub dump_stats_to_log : SeverityClass → Tm → Counters → Bytes
unfolding build_dhcp_events_log_msg
dump_stats_to_log oms_log_level tm c =
    log_oms_general_message oms_log_level tm oms_info oms_subsys_general
      (some (build_dhcp_events_log_msg 2048 c))

-- Every counter is an `int` that is not negative.
pub record IsCounted (c : Counters) : Type 0 where
  pub new_small : c.new_events < 2147483648
  pub old_small : c.old_events < 2147483648
  pub delete_small : c.delete_events < 2147483648
  pub error_small : c.error_events < 2147483648

digits : (n : ℕ) → n < 2147483648 → length (decimal n) ≤ 10
unfolding osmud.CString.Decimal.power
digits n h = decimal-length 9 n (omega (arith, h))

statistics-length :
    (p a b c d : Bytes)
    → length p ≡ 23
    → length a ≤ 10
    → length b ≤ 10
    → length c ≤ 10
    → length d ≤ 10
    → length
        (p ++ a ++ codes " | Old: " ++ b ++ codes " | Delete: " ++ c ++ codes " | Errors: " ++ d)
      ≤ 93
statistics-length p a b c d hp ha hb hc hd = omega (
  arith,
  hp,
  ha,
  hb,
  hc,
  hd,
  length-append (p ++ a ++ codes " | Old: " ++ b ++ codes " | Delete: " ++ c ++ codes " | Errors: ")
      d,
  length-append (p ++ a ++ codes " | Old: " ++ b ++ codes " | Delete: " ++ c) (codes " | Errors: "),
  length-append (p ++ a ++ codes " | Old: " ++ b ++ codes " | Delete: ") c,
  length-append (p ++ a ++ codes " | Old: " ++ b) (codes " | Delete: "),
  length-append (p ++ a ++ codes " | Old: ") b,
  length-append (p ++ a) (codes " | Old: "),
  length-append (p) a,
)

-- The text of the statistics has at most 93 bytes where the counters are `int`s, so the buffer of
-- `dumpStatsToLog`, and every buffer of 94 bytes or more, holds it whole.
pub build_dhcp_events_log_msg-whole :
    (buf_size : ℕ) (c : Counters)
    → IsCounted c
    → 93 < buf_size
    → build_dhcp_events_log_msg buf_size c ≡ statistics c
unfolding build_dhcp_events_log_msg snprintf
build_dhcp_events_log_msg-whole buf_size c h room =
    let short =
      statistics-length (codes "OSMUD:DHCP Stats: New: ") (decimal c.new_events)
        (decimal c.old_events) (decimal c.delete_events) (decimal c.error_events) refl
        (digits _ h.new_small) (digits _ h.old_small) (digits _ h.delete_small)
        (digits _ h.error_small) in
    take_all _ (statistics c) (omega (arith, short, room))
