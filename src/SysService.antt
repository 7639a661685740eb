-- ===== src/SysService.antt =====
-- task6/sys-service: a service that reports how the memory map of a process changes. `Log` and `Entry`
-- are src/ss_log.c, `Config` src/ss_config.c, `Maps` the parsing and `Diff` the comparing of
-- src/ss_start.c with src/ss_error.c, `Service` its main loop, and `Main` src/ss_main.c.
-- `Entries` and `Round` follow what is logged up to the whole log in `Watching`
-- and, for a process that is gone, in `Gone`.
pub mod Log
pub mod Entry
pub mod Refinement
pub mod Maps
pub mod Diff
pub mod Service
pub mod Laws
pub mod Reports
pub mod Balance
pub mod Entries
pub mod Round
pub mod Watching
pub mod Gone
pub mod Config
pub mod Main
pub mod Flags
pub mod Permissions
pub mod Preparing
pub mod Tests
