-- ===== src/ShrMem/Segment.antt =====
-- task3/shr-mem-SYSV/src/sm_main.c: the attached segment byte by byte, with the places that
-- `SharedMemoryInit` computes, and what the loops do to it. `size` is what the system has given for
-- the SHM_SZ bytes that shmget is asked for; an access behind it is undefined. A size_t has 8 bytes.
use sem.Common.{
  ℕ, ◌+◌, ◌*◌, ◌%◌, ◌^◌, Bool, ◌||◌, not, [], ◌∷◌, ◌++◌, Bytes, ◌==◌, ltb, leb, if◌then◌else◌, Run,
  ok, fault, ◌>>=◌,
}
use sem.ShrMem.Main.{index_num, ring_sz}
use sem.ShrMem.Memory.{Memory, update, read_word, write_word}

abbrev pub size_t_sz : ℕ
size_t_sz = 8

-- `Shmem->status`, and the two indices, to whose pointers a number of words is added.
abbrev pub status_at : ℕ
status_at = 0

abbrev pub s_ind_at : ℕ
s_ind_at = status_at + size_t_sz * size_t_sz

abbrev pub r_ind_at : ℕ
r_ind_at = s_ind_at + size_t_sz * size_t_sz

-- `Shmem->buf`, to which a number of bytes is added.
abbrev pub buf_at : ℕ
buf_at = index_num * size_t_sz

pub record Segment : Type 0 where
  pub size : ℕ
  pub bytes : Memory

unfoldable pub load_word : ℕ → Segment → Run ℕ
load_word at s = if leb (at + size_t_sz) s.size then ok (read_word s.bytes at size_t_sz) else fault

unfoldable pub store_word : ℕ → ℕ → Segment → Run Segment
store_word at v s =
    if leb (at + size_t_sz) s.size
    then ok (record s { bytes = write_word s.bytes at size_t_sz v })
    else fault

unfoldable pub load_byte : ℕ → Segment → Run ℕ
load_byte at s = if ltb at s.size then ok (s.bytes at) else fault

unfoldable pub store_byte : ℕ → ℕ → Segment → Run Segment
store_byte at c s = if ltb at s.size then ok (record s { bytes = update s.bytes at c }) else fault

-- The stores of `SharedMemoryInit`.
unfoldable pub init_segment : Segment → Run Segment
init_segment s = do
  s1 ← store_word status_at 1 s
  s2 ← store_word s_ind_at 0 s1
  store_word r_ind_at 0 s2

-- `((*pos) + 1) % BUF_SZ` in size_t.
abbrev pub next_pos : ℕ → ℕ
next_pos pos = (pos + 1) % 2 ^ 64 % ring_sz

-- The critical section of `send`, on what is left of the file, from which each read gives a byte.
unfoldable pub send_bytes : Bytes → Segment → Run (Bytes × Segment)
send_bytes [] s = do s1 ← store_word status_at 0 s; ok ([], s1)
send_bytes (c ∷ src) s = do
  pos ← load_word s_ind_at s
  s1 ← store_byte (buf_at + pos) c s
  pos1 ← load_word s_ind_at s1
  s2 ← store_word s_ind_at (next_pos pos1) s1
  ok (src, s2)

-- The test of the receiver, with the value of `full`.
unfoldable pub test_bytes : Segment → ℕ → Run Bool
test_bytes s full = do status ← load_word status_at s; ok ((status == 1) || not (full == 0))

-- The rest of the critical section of `receive`, on what has been written, where the
-- write takes the byte.
unfoldable pub receive_bytes : Segment → Bytes → Run (Bytes × Segment)
receive_bytes s dst = do
  pos ← load_word r_ind_at s
  c ← load_byte (buf_at + pos) s
  s1 ← store_word r_ind_at (next_pos pos) s
  ok (dst ++ c ∷ [], s1)

-- What the receiver does behind its loop.
unfoldable pub leave_bytes : Segment → Run Segment
leave_bytes s = store_word status_at 1 s
