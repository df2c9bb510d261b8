-- ===== src/Lib.antt =====
-- sysmon: a verification library for sysmond, the network monitor in src/ (C).
--
-- sysmond checks a graph of hosts, pages people when one stays down, asks devices by SNMP and takes
-- their traps. The parts modelled, and how they interact:
--
-- - Outage (src/syswatch.c handle_retval, src/page.c page_someone): what a finished check does to its
--   object. `handle_retval` is the composition of the blocks of the C function, in their order, on a
--   `State` of the object, the global change counter and the events sent out. `Outage.Course` is the
--   outage clock, `Outage.Notices` the pages, `Outage.Periodic` the pages that are repeated (one object
--   of periodic_page). What the two functions ask of the system - getpwuid,
--   popen, time, the random message id - is the record `Site`.
-- - Ber (src/trapdecode.c): the BER reader that the two SNMP parts share. `Ber.Cursor` is
--   snmp_ber_next with its array and indices, where a load outside the array is an outcome of its
--   own; `Ber.Reader` reads the list of unread bytes, which the other parts use. `Ber.Value` turns
--   the bytes of a value into numbers and texts, `Ber.Element` writes an element.
-- - Snmp (src/snmp.c): the client. `Snmp.Writer` is the BER writer with its overflow flag,
--   `Snmp.Query` bw_oid and snmp_build_get, `Snmp.Response` snmp_parse_response, `Snmp.Check`
--   service_test_snmp: one turn of a check, with its thresholds.
-- - Trap (src/trapdecode.c): from the bytes of a packet to `struct trap_content`
--   (`Trap.Content`, `Trap.Tables`, `Trap.Varbinds`, `Trap.Classify`, `Trap.Decode`), and the ring of
--   the last 128 (`Trap.Ring`).
-- - Queue (src/syswatch.c): which objects are due, over the dependency graph, which may have cycles
--   (walk_queue_checks_add; the fuel is the depth of the recursion, one more than the number of
--   objects), and in `Queue.Daemon` the check queue itself: `queue_checks_qsort_way` fills it, and
--   `service_checks` hands each result to the `handle_retval` of Outage. The qsort of the C library is
--   a parameter, and `IsQsort` says what is relied on.
-- - Saved (src/savestate.c): the state file. `write_state` prints it, `read_state` and `load_state`
--   read it back, `checkpoint_state` says when it is written; `Saved.Restart` joins it to Outage. The
--   fuel of the two loops is the length of the text and one. A read of an unset variable is none.
-- - Load (src/loadconfig.c): from the parsed objects to the graph that Queue walks. `make_adjs` finds the
--   neighbors, `log_orphans` what the root does not reach, `Load.Settings` holds the variables and the
--   spawn commands, `Load.Reload` what a reload keeps.
-- - Dns (src/dnscache.c): the cache of resolved names. `my_gethostbyname` looks a name up and
--   `expire_dns` drops what is too old; the resolver is the parameter `gethostbyname2`, which may answer
--   differently at each time and for each address family. Times and dnsexpire are not negative.
-- - Config (src/confgen.c): the base64 code in which a configuration is delivered.
-- - Names (src/lib.c): the names of the checks, in both directions. A word of more than 255 bytes before a
--   colon, which the C code writes past its array, is cut here.
-- - Base: tests, lists, words, signed integers and C strings.
--
-- Bytes, words and times are native numbers. An unsigned long wraps at 2 ^ 64 where the code counts
-- or shifts; an int from a long is `to_int`. A `char` array is its text without the NUL, and
-- `bounded n` is what snprintf keeps in n bytes. Fuel: the digits of a number (20 for 64 bits), the
-- rounds of decode_varbinds (TRAP_MAX_VARBIND) and the numbers of an OID (128) are bounds of the
-- source itself; loops over bytes recurse on the list.
--
-- Not modelled: sockets, files, the configuration grammar, the texts of mails and log lines, debug
-- output and NULL checks on pointers that the callers never leave NULL.
pub mod Base
pub mod Ber
pub mod Snmp
pub mod Trap
pub mod Outage
pub mod Config
pub mod Queue
pub mod Names
pub mod Saved
pub mod Load
pub mod Dns
