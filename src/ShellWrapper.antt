-- ===== src/ShellWrapper.antt =====
-- task1/shell-wrapper: a shell that runs pipelines. `Parse` is src/sw_parse.c, `Pipeline` is
-- src/sw_run.c with the loop of src/sw_main.c, `Heap` is about what they allocate, `Wiring` about one command line, `Session` and
-- `Outcomes` are about several.
pub mod Parse
pub mod Heap
pub mod Pipeline
pub mod Descriptors
pub mod Wiring
pub mod Printed
pub mod Session
pub mod Outcomes
pub mod Tests
