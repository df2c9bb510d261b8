-- ===== src/Ber.antt =====
-- src/trapdecode.c and src/snmp.c: the BER encoding that the trap decoder and the poller share.
-- `Cursor` reads an array by index as the C code does; `Reader` reads the list of unread bytes.
pub mod Cursor
pub mod Reader
pub mod Value
pub mod Element
mod Tests
