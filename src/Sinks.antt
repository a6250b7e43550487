-- ===== src/Sinks.antt =====
-- src/sinks: the places that records go to. The modules share the calls that write to a descriptor.
pub mod Wire
pub mod Tests
pub mod File
pub mod Console
pub mod Syslog
