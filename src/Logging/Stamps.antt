-- ===== src/Logging/Stamps.antt =====
-- The time stamps of the log, and which messages its table has.
use osmud.Prelude.{
  Bool-cases, inl, inr, ◌==◌, ℕ, zero, suc, ◌+◌, ◌-◌, ◌<◌, ◌≡◌, refl, ◌∙◌, arith, Option, none,
  some, [], ◌∷◌, ◌++◌, ok, fault, out_of_bounds, if◌then◌else◌, ltb, length, length-append,
  replicate,
}
use osmud.CString.{Bytes, codes, shown}
use osmud.CString.Decimal.{decimal, decimal-length}
use osmud.Logging.{SeverityClass, is_logged}
use osmud.Logging.Entries.{
  cant_read_file, cant_write_file, out_of_memory, SubsystemClass, Tm, padded, time_stamp, log_line,
  initialize_message_logging, get_message, log_oms_message,
}

-- The fields of a time, as `localtime` gives them up to the year 9999.
pub record IsTime (tm : Tm) : Type 0 where
  pub year : tm.tm_year < 8100
  pub mon : tm.tm_mon < 12
  pub mday : tm.tm_mday < 32
  pub hour : tm.tm_hour < 24
  pub min : tm.tm_min < 60
  pub sec : tm.tm_sec < 61

length-replicate : (n : ℕ) (c : ℕ) → length (replicate n c) ≡ n
length-replicate zero c = refl
length-replicate (suc n) c = omega (arith, length-replicate n c)

length-two : (n : ℕ) → n < 100 → length (padded 2 n) ≡ 2
unfolding padded osmud.CString.Decimal.power
length-two n h = omega (
  arith,
  length-append (replicate (2 - length (decimal n)) b'0') (decimal n),
  length-replicate (2 - length (decimal n)) b'0',
  decimal-length 1 n h,
)

length-four : (n : ℕ) → n < 10000 → length (padded 4 n) ≡ 4
unfolding padded osmud.CString.Decimal.power
length-four n h = omega (
  arith,
  length-append (replicate (4 - length (decimal n)) b'0') (decimal n),
  length-replicate (4 - length (decimal n)) b'0',
  decimal-length 3 n h,
)

separated :
    (a : Bytes) (c : ℕ) (b : Bytes) → length (a ++ ((c ∷ []) ++ b)) ≡ length a + 1 + length b
separated a c b = omega (arith, length-append a (c ∷ b))

joined-length :
    (a b c d e f : Bytes)
    → length a ≡ 4
    → length b ≡ 2
    → length c ≡ 2
    → length d ≡ 2
    → length e ≡ 2
    → length f ≡ 2
    → length (
        a ++ codes "-" ++ b ++ codes "-" ++ c ++ codes " " ++ d ++ codes ":" ++ e ++ codes ":" ++ f)
      ≡ 19
joined-length a b c d e f ha hb hc hd he hf = omega (
  arith,
  ha,
  hb,
  hc,
  hd,
  he,
  hf,
  length-append
      (a ++ codes "-" ++ b ++ codes "-" ++ c ++ codes " " ++ d ++ codes ":" ++ e ++ codes ":") f,
  length-append (a ++ codes "-" ++ b ++ codes "-" ++ c ++ codes " " ++ d ++ codes ":" ++ e)
      (codes ":"),
  length-append (a ++ codes "-" ++ b ++ codes "-" ++ c ++ codes " " ++ d ++ codes ":") e,
  length-append (a ++ codes "-" ++ b ++ codes "-" ++ c ++ codes " " ++ d) (codes ":"),
  length-append (a ++ codes "-" ++ b ++ codes "-" ++ c ++ codes " ") d,
  length-append (a ++ codes "-" ++ b ++ codes "-" ++ c) (codes " "),
  length-append (a ++ codes "-" ++ b ++ codes "-") c,
  length-append (a ++ codes "-" ++ b) (codes "-"),
  length-append (a ++ codes "-") b,
  length-append a (codes "-"),
)

-- The time stamp of a line of the log has 19 bytes for every time that `localtime` gives up to the
-- year 9999.
pub length-time_stamp : (tm : Tm) → IsTime tm → length (time_stamp tm) ≡ 19
unfolding time_stamp
length-time_stamp tm h =
    joined-length _ _ _ _ _ _ (length-four (tm.tm_year + 1900) (omega (arith, h.year)))
      (length-two tm.tm_mon (omega (arith, h.mon))) (length-two tm.tm_mday (omega (arith, h.mday)))
      (length-two tm.tm_hour (omega (arith, h.hour))) (length-two tm.tm_min (omega (arith, h.min)))
      (length-two tm.tm_sec (omega (arith, h.sec)))

-- the text of a number
unfoldable pub message_of : ℕ → Option Bytes
message_of msg_id =
    if msg_id == cant_read_file
    then some (codes "Cannot read file")
    else if msg_id == cant_write_file
    then some (codes "Cannot write file")
    else if msg_id == out_of_memory
    then some (codes "Out of memory")
    else none

blank_message :
    (n msg_id : ℕ)
    → get_message (replicate n none) msg_id
      ≡ (if ltb msg_id n then ok none else fault out_of_bounds)
unfolding get_message
blank_message zero msg_id = ground arith
blank_message (suc n) zero = ground arith
blank_message (suc n) (suc msg_id) = ground (arith, blank_message n msg_id)

get_message-initialize :
    (msg_id : ℕ)
    → get_message initialize_message_logging msg_id
      ≡ (if ltb msg_id 600 then ok (message_of msg_id) else fault out_of_bounds)
unfolding get_message initialize_message_logging message_of
get_message-initialize zero = refl
get_message-initialize (suc zero) = refl
get_message-initialize (suc (suc zero)) = refl
get_message-initialize (suc (suc (suc zero))) = refl
get_message-initialize (suc (suc (suc (suc k)))) = blank_message 596 k ∙ ground arith

-- After `initializeMessageLogging` a message of the table is logged with the text of its number:
-- the numbers 1, 2 and 3 have texts, every other number below 600 is printed as a missing string, and
-- a number from 600 on is a read outside the table. A severity that the level leaves out writes
-- nothing, whatever the number.
pub log_oms_message-initialize :
    (level : SeverityClass) (tm : Tm) (severity : SeverityClass) (subsystem : SubsystemClass)
    (msg_id : ℕ)
    → log_oms_message initialize_message_logging level tm severity subsystem msg_id ≡ (
        if is_logged severity level
        then (if ltb msg_id 600
            then ok (log_line tm severity subsystem (message_of msg_id))
            else fault out_of_bounds)
        else ok [])
unfolding log_oms_message
log_oms_message-initialize level tm severity subsystem msg_id = elim (Bool-cases (ltb msg_id 600)) [
  | inl e ↦ rw (get_message-initialize msg_id, e) refl
  | inr e ↦ rw (get_message-initialize msg_id, e) refl
]
