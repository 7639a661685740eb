-- ===== src/ShrMem/Begin.antt =====
-- task3/shr-mem-SYSV/src/sm_main.c: `getaddr`, and `main` up to the fork. What the calls return is
-- an argument, `false` for -1.
use sem.Common.{ℕ, Bool, ◌==◌, Option, none, some, Bytes, Run, ok, exit, ensure, ◌>>=◌, ◌>>◌}
use sem.ShrMem.Main.{SharedMemory, Semid, shared_memory_init}

unfoldable pub getaddr : Bool → Bool → Bool → Run (Unit {0})
getaddr ftok shmget shmat = ensure ftok 1 >> ensure shmget 1 >> ensure shmat 1

-- The sides of the fork, in which main calls `receive` and `send`.
pub data Side : Type 0 where
  receives_in_child sends_in_parent : Side

-- `main` up to the fork: the memory, the semaphores and the side; `sems` is the outcome of
-- `SemaphoresInit`, and fork gives `none` for -1.
unfoldable pub main_begin :
    ℕ → Bool → Bool → Bool → Bytes → Run Semid → Option Side → Run (SharedMemory × (Semid × Side))
main_begin argc ftok shmget shmat buf sems none =
    ensure (argc == 3) 1 >> getaddr ftok shmget shmat >> (sems >>= λ sem. exit 1)
main_begin argc ftok shmget shmat buf sems (some side) =
    ensure (argc == 3) 1
    >> getaddr ftok shmget shmat
    >> (sems >>= λ sem. ok (shared_memory_init buf, (sem, side)))
