-- ===== src/Trap.antt =====
-- src/trapdecode.c: from the packet on port 162 to the record of the trap, and the ring of records.
mod Tests
pub mod Content
pub mod Tables
pub mod Varbinds
pub mod Classify
pub mod Decode
pub mod Ring
