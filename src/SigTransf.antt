-- ===== src/SigTransf.antt =====
-- task5/sig-transf: a file is sent to the parent process bit by bit, as SIGUSR1 for a one and
-- SIGUSR2 for a zero, each acknowledged by SIGUSR1. `Main` holds the two processes of
-- src/st_main.c and their steps, `Bits` the arithmetic of one bit, `Transfer` what arrives, and
-- `Termination` counts the steps.
pub mod Main
pub mod Bits
pub mod Story
pub mod Invariant
pub mod Transfer
pub mod Termination
pub mod Tests
