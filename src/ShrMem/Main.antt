-- ===== src/ShrMem/Main.antt =====
-- task3/shr-mem-SYSV/src/sm_main.c: the shared memory, the two loops and their steps, with the
-- operations of src/sm_sem.c on a semaphore, which is its value.
use sem.Common.{
  ℕ, ◌+◌, ◌-◌, ◌*◌, ◌%◌, ◌<◌, ◌≡◌, ◌≢◌, Bool, true, false, ◌||◌, not, [], ◌∷◌, ◌++◌, Bytes, set,
  get_or, replicate, ◌==◌, ◌^◌, Run, ok, exit,
}

abbrev pub index_num : ℕ
index_num = 3

abbrev pub shm_sz : ℕ
shm_sz = 64

abbrev pub ring_sz : ℕ
ring_sz = shm_sz - index_num * 8

-- `SharedMemory`, by what its pointers point at.
pub record SharedMemory : Type 0 where
  pub status : ℕ
  pub s_ind : ℕ
  pub r_ind : ℕ
  pub buf : Bytes

-- `Semid`, by the values of the semaphores.
pub record Semid : Type 0 where
  pub empty : ℕ
  pub mutex : ℕ
  pub full : ℕ

-- `SharedMemoryInit`, on what the segment's buffer holds.
unfoldable pub shared_memory_init : Bytes → SharedMemory
shared_memory_init buf = record { status = 1; s_ind = 0; r_ind = 0; buf = buf }

-- `MySemOpen` of a semaphore that semget gives: zero first, then the size.
abbrev pub my_sem_open : ℕ → ℕ
my_sem_open sem_sz = sem_sz

unfoldable pub semaphores_init : Semid
semaphores_init = record {
  empty = my_sem_open ring_sz;
  mutex = my_sem_open 1;
  full = my_sem_open 0;
}

-- `MySemPost`, and `MySemWait` of a value that is not zero.
abbrev pub my_sem_post : ℕ → ℕ
my_sem_post v = v + 1

abbrev pub my_sem_wait : ℕ → ℕ
my_sem_wait v = v - 1

-- Where the sender is: at the test of its loop, behind each of the two waits, behind the section,
-- behind the post of `mutex`, at the loop that waits for the receiver, and behind it.
pub data Sender : Type 0 where
  s_test s_empty s_mutex s_written s_posted s_spin s_end : Sender

-- Where the receiver is: at the top of its loop, behind each of the two waits, behind the section
-- and the post of `mutex`, the last two also on the way out, and behind the loop.
pub data Receiver : Type 0 where
  r_top r_full r_mutex r_read r_posted r_break r_left r_end : Receiver

pub record World : Type 0 where
  pub src : Bytes
  pub dst : Bytes
  pub shm : SharedMemory
  pub sem : Semid
  pub snd : Sender
  pub rcv : Receiver

unfoldable pub begin : Bytes → World
unfolding shared_memory_init semaphores_init
begin file = record {
  src = file;
  dst = [];
  shm = shared_memory_init (replicate ring_sz 0);
  sem = semaphores_init;
  snd = s_test;
  rcv = r_top;
}

-- What the read of `send` gives: a byte, nothing at the end of the file, or -1, a size_t then.
pub data ReadGives : Type 0 where
  read_byte : ℕ → ReadGives
  read_end read_failed : ReadGives

-- The critical section of `send`: a byte goes into the buffer, or the status is the end of the file.
-- A read that fails is taken for a byte, and moves the index by the largest size_t.
abbrev pub send_reads : ReadGives → SharedMemory → SharedMemory
send_reads (read_byte c) shm = record shm {
  buf = set shm.buf shm.s_ind c;
  s_ind = (shm.s_ind + 1) % ring_sz;
}
send_reads read_end shm = record shm { status = 0 }
send_reads read_failed shm = record shm { s_ind = (shm.s_ind + (2 ^ 64 - 1)) % 2 ^ 64 % ring_sz }

-- The same on what is left of the file, from which each read gives the next byte.
unfoldable pub send_section : Bytes → SharedMemory → Bytes × SharedMemory
send_section [] shm = ([], send_reads read_end shm)
send_section (c ∷ src) shm = (src, send_reads (read_byte c) shm)

-- The test of `receive`, with the value of `full`.
unfoldable pub goes_on : SharedMemory → ℕ → Bool
goes_on shm full = (shm.status == 1) || not (full == 0)

-- The rest of the critical section of `receive`, where the write takes the byte.
unfoldable pub receive_section : SharedMemory → Bytes → Bytes × SharedMemory
receive_section shm dst =
    (dst ++ get_or shm.buf shm.r_ind 0 ∷ [], record shm { r_ind = (shm.r_ind + 1) % ring_sz })

-- What the write of `receive` gives: the byte is taken, it is not, or -1.
pub data WriteGives : Type 0 where
  written written_none write_failed : WriteGives

-- The same on every result: one that is 0 ends the process, with the mutex held, and a byte whose
-- write fails is lost.
unfoldable pub receive_writes : WriteGives → SharedMemory → Bytes → Run (Bytes × SharedMemory)
receive_writes written shm dst = ok (receive_section shm dst)
receive_writes written_none shm dst = exit 1
receive_writes write_failed shm dst = ok (dst, record shm { r_ind = (shm.r_ind + 1) % ring_sz })

abbrev pub after_send : World → World
after_send w =
    let r = send_section w.src w.shm in record w { src = r.0; shm = r.1; snd = s_written }

abbrev pub after_receive : World → World
after_receive w =
    let r = receive_section w.shm w.dst in record w { dst = r.0; shm = r.1; rcv = r_read }

-- A step of the sender or of the receiver, whose reads give the bytes of the file and then its end, and
-- whose writes take each byte.
pub data Step (w : World) : World → Type 0 where
  leaves : w.snd ≡ s_test → w.shm.status ≡ 0 → Step w (record w { snd = s_spin })
  waits_empty :
      w.snd ≡ s_test
      → w.shm.status ≢ 0
      → 0 < w.sem.empty
      → Step w (record w { snd = s_empty; sem = record w.sem { empty = my_sem_wait w.sem.empty } })
  waits_mutex :
      w.snd ≡ s_empty
      → 0 < w.sem.mutex
      → Step w (record w { snd = s_mutex; sem = record w.sem { mutex = my_sem_wait w.sem.mutex } })
  sends : w.snd ≡ s_mutex → Step w (after_send w)
  posts_mutex :
      w.snd ≡ s_written
      → Step w (record w { snd = s_posted; sem = record w.sem { mutex = my_sem_post w.sem.mutex } })
  posts_full :
      w.snd ≡ s_posted
      → Step w (record w { snd = s_test; sem = record w.sem { full = my_sem_post w.sem.full } })
  ends : w.snd ≡ s_spin → w.shm.status ≢ 0 → Step w (record w { snd = s_end })
  receiver_full :
      w.rcv ≡ r_top
      → 0 < w.sem.full
      → Step w (record w { rcv = r_full; sem = record w.sem { full = my_sem_wait w.sem.full } })
  receiver_mutex :
      w.rcv ≡ r_full
      → 0 < w.sem.mutex
      → Step w (record w { rcv = r_mutex; sem = record w.sem { mutex = my_sem_wait w.sem.mutex } })
  receives : w.rcv ≡ r_mutex → goes_on w.shm w.sem.full ≡ true → Step w (after_receive w)
  breaks : w.rcv ≡ r_mutex → goes_on w.shm w.sem.full ≡ false → Step w (record w { rcv = r_break })
  receiver_posts :
      w.rcv ≡ r_read
      → Step w (record w { rcv = r_posted; sem = record w.sem { mutex = my_sem_post w.sem.mutex } })
  receiver_empty :
      w.rcv ≡ r_posted
      → Step w (record w { rcv = r_top; sem = record w.sem { empty = my_sem_post w.sem.empty } })
  break_posts :
      w.rcv ≡ r_break
      → Step w (record w { rcv = r_left; sem = record w.sem { mutex = my_sem_post w.sem.mutex } })
  break_empty :
      w.rcv ≡ r_left
      → Step w (record w {
        rcv = r_end;
        shm = record w.shm { status = 1 };
        sem = record w.sem { empty = my_sem_post w.sem.empty };
      })

pub data Reach (file : Bytes) : World → Type 0 where
  here : Reach file (begin file)
  later : {u v : World} → Reach file u → Step u v → Reach file v
