-- ===== src/ShrMem.antt =====
-- task3/shr-mem-SYSV: a file goes byte by byte through a ring buffer in shared memory. `Main` is
-- src/sm_main.c with the semaphores of src/sm_sem.c, `Segment` the same segment byte by byte, with
-- `Memory` for words in bytes, and `Begin` and `Semaphores` what the programs do before their loops.
pub mod Main
pub mod Memory
pub mod Segment
pub mod Layout
pub mod Refinement
pub mod Exclusion
pub mod LostByte
pub mod Completion
pub mod Places
pub mod Counts
pub mod Sections
pub mod Transfer
pub mod Ring
pub mod Begin
pub mod Semaphores
pub mod Tests
