-- ===== src/IntegralMk.antt =====
-- task4/integral-mk: an integral by random points that threads generate. `Main` is what the threads
-- of src/mk_main.c do, `Points` its points and its estimate, and `Program` its `main`. `Shares`,
-- `Finish` and `Hits` follow the threads to their end, `Median` and `Trials` the tests.
pub mod Main
pub mod Points
pub mod Program
pub mod Counters
pub mod Shares
pub mod Late
pub mod Finish
pub mod Hits
pub mod Median
pub mod Trials
pub mod Instance
pub mod Tests
