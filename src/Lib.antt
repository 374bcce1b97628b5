-- ===== src/Lib.antt =====
-- osMUD: a MUD manager for OpenWrt routers. dnsmasq writes a line for each DHCP event; osMUD reads
-- the line, fetches the MUD file that the device names and its signature, checks the signature,
-- and turns the MUD file into firewall rules by running scripts.
--
-- The parts, and the files of the repository that they model:
--   Utils       src/oms_utils.c: `copystring`, `strcmpi`, `remove_ext`, `replaceExtension`,
--               `writeStringToFile`; Utils/Paths: `mkdir_path`, `fopen_with_path`, and
--               `createMudfileStorage` of src/openwrt/openwrt.c; Utils/Processes: `run_command`
--   DhcpEvent   src/dhcp_event.c, src/dhcp_event.h: the reading of a line, the storage locations
--   MudParser   src/mudparser.c, src/mudparser.h: `parseMudFile`, the struct it fills and how that
--               is freed, and `readFileToString` of src/oms_utils.c
--   OpenWrt     src/openwrt/openwrt.c, src/openwrt/openwrt.h: the commands that are run
--   Scripts     src/openwrt/*.sh and src/dnsmasq/detect_new_device.sh: how the shell reads a command
--               (Shell), `getopts` and the variables (Getopts), the scripts for rules (Firewall),
--               for the database (Database) and for dnsmasq (Dnsmasq), and a run of effects on the
--               configuration and the files (Machine)
--   Comms       src/comms.c: `getOpenMudFile`
--   MudManager  src/mud_manager.c: what is done for each event
--   Main        src/osmud.c: the options and settings (Settings), `main` up to its loop (Start),
--               `readLine`, `pollDhcpFile`, the rounds of `doProcessLoop` (Loop);
--               Usage: what it prints on -h and -v, with src/version.c
--   Logging     src/oms_logging.c, src/oms_messages.h: severities, the level of the log, its
--               messages and lines (Entries); MudManager/Statistics has what is logged of the events
-- Below them are Prelude (lists, options, faults and integers), CString (C strings, `strtok`,
-- `strrchr`, `snprintf` and `basename`) and Outside (what the program asks of its environment).
-- MudParser/Document and MudManager/Plan are the specification for MUD files: abstract documents,
-- how they are written as JSON (RFC 8520), and the commands that a document stands for.
-- Tests holds runs at concrete inputs. A definition has the name of the C function in lower case
-- with underscores; the body of a loop or of a branch that has a definition of its own is named
-- for what it does.
--
-- How the code is modelled:
--   * A C string is the list of its bytes before the NUL; a `char *` is an `Option` of one, with
--     `none` for NULL. A block of the heap keeps its size where the size matters (`HeapText`).
--     A text that is printed beyond such a block is not a fault of the model: it can be seen from
--     the size, and the run goes on with the text, as where the allocator leaves room.
--   * A read through NULL, a read or write outside an array, and a read of what nothing was stored
--     in end the run with a `Fault`. C leaves open what such a run does, so nothing is said of it.
--   * Code that acts on the world is an `Exec`: it takes the effects so far, the latest first, and
--     returns a value and the longer list, or a fault. The record `Env` says what each command,
--     transfer, resolution and file read gives after the effects before it, with no law on it. The
--     record `JsonC` stands for json-c with the laws that the code relies on.
--   * A text that `snprintf` prints is cut at the size of its buffer, a missing string is printed
--     as `(null)`. Arrays have the sizes of the source: 50 policies for each direction, 10 acls, 50
--     aces for each acl, 50 addresses, 20 tokens.
--   * Loops are recursion on the list or on the counter that bounds them. Only `mkdir_path` and the
--     digits of a number have fuel: the length of the path, which is longer than each path it calls
--     itself on, and the number, which is divided by 10 in each step.
--   * The endless loop of `doProcessLoop` is its rounds, each with what was written to the file of
--     events since the last one and with what `select` found; Main/Reach has its states as a
--     relation.
--   * What `getopt`, `fork`, `setsid`, `wait` and `localtime` return are arguments of the
--     definitions that use it.
--   * The record `Uci` stands for `uci` with the laws that the scripts rely on, `Tools` for it and for
--     the match of an expression in a line. A command whose text has a byte that is special for the
--     shell, other than a parenthesis, is left to `Tools` as well: nothing is known of what it does.
--   * What the handlers print into `logMsgBuf` for the log is no part of their run, so that a text too
--     long for its 4096 bytes is no fault of theirs. `build_dhcp_event_context` is that text, and
--     DhcpEvent/Context is about its length.
--   * Counters are unbounded numbers. That an `int` overflows is not modelled.
--
-- Not modelled: the calls of `umask`, `chdir` and `close` in src/osmud.c, the log as an effect of the
-- other parts, the memory beyond the strings that `freeMudFileInfo` frees, and src/sampleDevice, a
-- stub in place of src/openwrt that does not compile.

pub mod CString
pub mod Comms
pub mod DhcpEvent
pub mod Logging
pub mod Main
pub mod MudManager
pub mod MudParser
pub mod OpenWrt
pub mod Outside
pub mod Prelude
pub mod Scripts
pub mod Tests
pub mod Utils
