-- ===== src/Snmp.antt =====
-- src/snmp.c: sysmond's own SNMP client - the BER writer, the GetRequest, the GetResponse and the
-- check that compares its value with thresholds.
mod Tests
pub mod Writer
pub mod Query
pub mod Response
pub mod Check
