-- ===== src/ShrMem/Layout.antt =====
-- The bytes of the segment hold the record that the loops are modelled on.
use sem.Common.{
  ℕ, ◌+◌, ◌≤◌, ◌<◌, ◌≡◌, ◌≢◌, inl, inr, refl, sym, ◌∙◌, true, false, length, length-set, set,
  get_or, get_or-set_self, get_or-set_ne, ◌==◌, ltb, leb, Bool-cases, ok, fault, arith,
}
use sem.ShrMem.Main.{SharedMemory}
use sem.ShrMem.Memory.{
  update, read_word, write_word, write_word-other, read_word-write_word, read_word-write_other,
  read_word-update, update_other,
}
use sem.ShrMem.Segment.{Segment, load_word, store_word, load_byte, store_byte}

-- The segment has room for the places, and holds the words and the buffer there.
pub record Holds (s : Segment) (shm : SharedMemory) : Type 0 where
  pub room : 136 ≤ s.size
  pub status : read_word s.bytes 0 8 ≡ shm.status
  pub s_ind : read_word s.bytes 64 8 ≡ shm.s_ind
  pub r_ind : read_word s.bytes 128 8 ≡ shm.r_ind
  pub s_range : shm.s_ind < 40
  pub r_range : shm.r_ind < 40
  pub length_buf : length shm.buf ≡ 40
  pub buffer : (j : ℕ) → j < 40 → s.bytes (24 + j) ≡ get_or shm.buf j 0

pub load_word-ok :
    (at : ℕ) (s : Segment) → at + 8 ≤ s.size → load_word at s ≡ ok (read_word s.bytes at 8)
unfolding load_word
load_word-ok at s h = let e : leb (at + 8) s.size ≡ true = ground arith in rw e refl

pub store_word-ok :
    (at v : ℕ) (s : Segment)
    → at + 8 ≤ s.size
    → store_word at v s ≡ ok (record s { bytes = write_word s.bytes at 8 v })
unfolding store_word
store_word-ok at v s h = let e : leb (at + 8) s.size ≡ true = ground arith in rw e refl

pub store_word-faults : (at v : ℕ) (s : Segment) → s.size < at + 8 → store_word at v s ≡ fault
unfolding store_word
store_word-faults at v s h = let e : leb (at + 8) s.size ≡ false = ground arith in rw e refl

pub load_byte-ok : (at : ℕ) (s : Segment) → at < s.size → load_byte at s ≡ ok (s.bytes at)
unfolding load_byte
load_byte-ok at s h = let e : ltb at s.size ≡ true = ground arith in rw e refl

pub store_byte-ok :
    (at c : ℕ) (s : Segment)
    → at < s.size
    → store_byte at c s ≡ ok (record s { bytes = update s.bytes at c })
unfolding store_byte
store_byte-ok at c s h = let e : ltb at s.size ≡ true = ground arith in rw e refl

abbrev pub stored : Segment → ℕ → ℕ → Segment
stored s at v = record s { bytes = write_word s.bytes at 8 v }

-- The status stored, and the other words and the buffer kept.
pub stored-status :
    (s : Segment) (shm : SharedMemory) (v : ℕ)
    → v < 256
    → Holds s shm
    → Holds (stored s 0 v) (record shm { status = v })
stored-status s shm v h k = record {
  room = k.room;
  status = read_word-write_word s.bytes 0 8 v (omega (arith, h));
  s_ind = read_word-write_other s.bytes 0 8 v 64 8 (inr (omega arith)) ∙ k.s_ind;
  r_ind = read_word-write_other s.bytes 0 8 v 128 8 (inr (omega arith)) ∙ k.r_ind;
  s_range = k.s_range;
  r_range = k.r_range;
  length_buf = k.length_buf;
  buffer = λ j l. write_word-other s.bytes 0 8 v (24 + j) (inr (omega arith)) ∙ k.buffer j l;
}

pub stored-s_ind :
    (s : Segment) (shm : SharedMemory) (v : ℕ)
    → v < 40
    → Holds s shm
    → Holds (stored s 64 v) (record shm { s_ind = v })
stored-s_ind s shm v h k = record {
  room = k.room;
  status = read_word-write_other s.bytes 64 8 v 0 8 (inl (omega arith)) ∙ k.status;
  s_ind = read_word-write_word s.bytes 64 8 v (omega (arith, h));
  r_ind = read_word-write_other s.bytes 64 8 v 128 8 (inr (omega arith)) ∙ k.r_ind;
  s_range = h;
  r_range = k.r_range;
  length_buf = k.length_buf;
  buffer = λ j l. write_word-other s.bytes 64 8 v (24 + j) (inl (omega (arith, l))) ∙ k.buffer j l;
}

pub stored-r_ind :
    (s : Segment) (shm : SharedMemory) (v : ℕ)
    → v < 40
    → Holds s shm
    → Holds (stored s 128 v) (record shm { r_ind = v })
stored-r_ind s shm v h k = record {
  room = k.room;
  status = read_word-write_other s.bytes 128 8 v 0 8 (inl (omega arith)) ∙ k.status;
  s_ind = read_word-write_other s.bytes 128 8 v 64 8 (inl (omega arith)) ∙ k.s_ind;
  r_ind = read_word-write_word s.bytes 128 8 v (omega (arith, h));
  s_range = k.s_range;
  r_range = h;
  length_buf = k.length_buf;
  buffer = λ j l. write_word-other s.bytes 128 8 v (24 + j) (inl (omega (arith, l))) ∙ k.buffer j l;
}

-- A byte stored in the buffer.
pub stored-byte :
    (s : Segment) (shm : SharedMemory) (i c : ℕ)
    → i < 40
    → Holds s shm
    → Holds (record s { bytes = update s.bytes (24 + i) c }) (record shm { buf = set shm.buf i c })
stored-byte s shm i c h k = record {
  room = k.room;
  status = read_word-update s.bytes (24 + i) c 0 8 (inr (omega arith)) ∙ k.status;
  s_ind = read_word-update s.bytes (24 + i) c 64 8 (inl (omega (arith, h))) ∙ k.s_ind;
  r_ind = read_word-update s.bytes (24 + i) c 128 8 (inl (omega (arith, h))) ∙ k.r_ind;
  s_range = k.s_range;
  r_range = k.r_range;
  length_buf = length-set shm.buf i c ∙ k.length_buf;
  buffer = λ j l. elim (Bool-cases (i == j)) [
    | inl e ↦ placed j (ground arith)
    | inr e ↦ kept j l (ground arith)
  ];
}
  where
    placed : (j : ℕ) → i ≡ j → update s.bytes (24 + i) c (24 + j) ≡ get_or (set shm.buf i c) j 0
    placed j e =
        rw (sym e) (ground (arith, get_or-set_self shm.buf i c 0 (omega (arith, h, k.length_buf))))

    kept :
        (j : ℕ) → j < 40 → i ≢ j → update s.bytes (24 + i) c (24 + j) ≡ get_or (set shm.buf i c) j 0
    kept j l e =
        update_other s.bytes (24 + i) c (24 + j) (omega (arith, e))
        ∙ k.buffer j l
        ∙ sym (get_or-set_ne shm.buf i j c 0 e)
