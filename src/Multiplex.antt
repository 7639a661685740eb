-- ===== src/Multiplex.antt =====
-- task7/multiplex-io: a server to which clients register over a fifo. `Server` is the registration of
-- server/src/s_main.c with server/src/s_interact.c, `Work` its epoll loop and the work on a request,
-- and `Client` is client/src/cn_main.c with client/src/cn_interact.c.
pub mod System
pub mod Server
pub mod Work
pub mod Client
pub mod Counts
pub mod Bounds
pub mod Names
pub mod Round
pub mod Entry
pub mod Registration
pub mod RoundTrip
pub mod Collision
pub mod Meeting
pub mod Answers
pub mod Tests
