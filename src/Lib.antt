-- ===== src/Lib.antt =====
-- Verification library of the course work in task1 … task7: small C programs, one for each task.
-- Paths are those of the repository.
--
-- The programs do not call one another; each is a part of its own.
-- * task1/shell-wrapper (ShellWrapper.antt): `Parse` is src/sw_parse.c, and `Pipeline` has the rounds
--   of src/sw_run.c (`run_loop`, with `child_branch` and `parent_branch`) and the loop of src/sw_main.c.
-- * task2/duplex-pipe (DuplexPipe.antt): `Pipe` has the objects of src/dp_pipe.c and
--   src/dp_string.c (`ctor_pipe`, `p_snd`, `p_rcv`) and `main_program`, which is src/dp_main.c.
-- * task3/FIFO (Fifo.antt): `Server` and `Client` are src/fifo_server.c and src/fifo_client.c, up to
--   their loops (`server_start`, `client_start`) and a round of each (`server_round`,
--   `client_round`); `System` runs the loops side by side over a pipe, and `Session` joins the two
--   starts to them.
-- * task3/msg-queue-SYSV (MsgQueue.antt): `Main` is src/mq_main.c, where the two processes share the
--   list of the messages in the queue.
-- * task3/shr-mem-SYSV (ShrMem.antt): `Main` is src/sm_main.c, with the values of the semaphores of
--   src/sm_sem.c, and the steps of the two processes; `Semaphores` and `Begin` are how the semaphores
--   and the segment are had, up to the loops; `Segment` is the segment byte by byte, with the places
--   that SharedMemoryInit computes.
-- * task4/integral-mk (IntegralMk.antt): `Main` has the split of the points, the counting loop and the
--   critical section of src/mk_main.c, `Points` its points and its estimate, and `Program` its `main`
--   (`getaddr`, `run_test`, `run_tests`). Doubles are the record `Floating`.
-- * task5/sig-transf (SigTransf.antt): `Main` is src/st_main.c, with a function for each handler and
--   each piece of the two loops, and the steps of the two processes.
-- * task6/sys-service (SysService.antt): `Log` is src/ss_log.c, where an entry is the message with its
--   arguments printed in, and `Entry` what the same code writes to the file; `Maps`, `Diff` and
--   `Service` are src/ss_start.c with src/ss_error.c (`parse_maps`, `pml_diff`, `pml_swap`,
--   `start_service`), `Config` is src/ss_config.c and `Main` src/ss_main.c. `Watching` and
--   `Gone` have the whole log of a service.
-- * task7/multiplex-io (Multiplex.antt): `Server` is server/src/s_interact.c and the registration
--   and the `main` of server/src/s_main.c, `Work` its epoll thread and `s_processing_request`,
--   `Client` is client/src/cn_main.c with client/src/cn_interact.c. What the two ask of the system is the record
--   `System`.
--
-- Conventions. A text or a file is a list of bytes, each a native number; a C string ends at its
-- first NUL. A process is a value of `Run` (Common/Process.antt): it goes on with a value, ends
-- with an exit code, or does what the C standard leaves undefined (`fault`). What a system call
-- returns is an argument of the functions that call it, or the choice of a step of a relation. Two
-- processes that run side by side are a relation `Step` on their joint state; a theorem about
-- `Reach` holds in every interleaving.
--
-- Bounds. Sizes and counters are natural numbers, with `% 256`, `% 128` or `% 2 ^ 64` where the
-- code converts or wraps. A loop of `snd_loop` (DuplexPipe/Pipe.antt) has a round of fuel for each
-- byte of the file and one more; a round that is not the last takes 65024 bytes, so the fuel never
-- runs out, and the round trip is proved at that fuel. The digits of a number (Common/Text.antt)
-- have as much fuel as the number itself and one more. The doubles of
-- task4/integral-mk, what rand_r and clock_gettime give and the C library's qsort are parameters.
--
-- Files. The steps of task3/shr-mem-SYSV are those of reads that give the next byte or the end of the
-- file and of writes that take their byte; `send_reads` and `receive_writes` (ShrMem/Main.antt) have
-- the other results too. So has `parent_turn` (SigTransf/Main.antt) for fopen and write of the parent
-- of task5/sig-transf, whose steps are those of a parent that has its file; the child's open and read
-- may fail. The loops of task3/FIFO and task2/duplex-pipe run on reads and writes that succeed.
--
-- Not modelled: messages printed to the terminal, the freeing of memory at the end of a process,
-- what is done by the programs that a shell starts, the thread pool that runs the jobs of
-- task7/multiplex-io, the programs under the folders `examples` of each task, which demonstrate single system calls,
-- and task7/multiplex-io/server/src/thpool.c, a copy of another project's thread pool.
pub mod Common
pub mod Fifo
pub mod SigTransf
pub mod DuplexPipe
pub mod SysService
pub mod ShellWrapper
pub mod MsgQueue
pub mod IntegralMk
pub mod ShrMem
pub mod Multiplex
