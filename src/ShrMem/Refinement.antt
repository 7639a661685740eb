-- ===== src/ShrMem/Refinement.antt =====
-- What the loops do to the bytes of the segment, they do to the record.
use sem.Common.{
  ℕ, zero, suc, Bool-cases, leb, ◌+◌, ◌%◌, ◌≤◌, ◌<◌, ◌≡◌, inl, inr, ◌⊎◌, refl, sym, ap, ◌∙◌, [],
  ◌∷◌, Bytes, length, set, get_or, ok, fault, arith,
}
use sem.ShrMem.Main.{
  SharedMemory, ring_sz, shared_memory_init, send_section, receive_section, goes_on,
}
use sem.ShrMem.Memory.{
  Memory, update, read_word-write_word, read_word-write_other, write_word-other,
}
use sem.ShrMem.Segment.{
  Segment, init_segment, next_pos, send_bytes, test_bytes, receive_bytes, leave_bytes,
}
use sem.ShrMem.Layout.{
  Holds, load_word-ok, store_word-ok, store_word-faults, load_byte-ok, store_byte-ok, stored,
  stored-status, stored-s_ind, stored-r_ind, stored-byte,
}

next_pos-ring : (pos : ℕ) → pos < 40 → next_pos pos ≡ (pos + 1) % ring_sz
next_pos-ring pos h = omega (arith, h)

ring_range : (pos : ℕ) → (pos + 1) % ring_sz < 40
ring_range pos = omega arith

send_bytes-refines :
    (src : Bytes) (s : Segment) (shm : SharedMemory)
    → Holds s shm
    → (s' : Segment) × (send_bytes src s ≡ ok ((send_section src shm).0, s'))
      × Holds s' (send_section src shm).1
unfolding send_bytes send_section
send_bytes-refines [] s shm h = (
  stored s 0 0,
  rw (store_word-ok 0 0 s (omega (arith, h.room))) refl,
  stored-status s shm 0 (omega arith) h,
)
send_bytes-refines (c ∷ src) s shm h =
    let s1 = record s { bytes = update s.bytes (24 + shm.s_ind) c } in
    let h1 = stored-byte s shm shm.s_ind c h.s_range h in
    let e = next_pos-ring shm.s_ind h.s_range in
    (
      stored s1 64 ((shm.s_ind + 1) % ring_sz),
      rw
          (
            load_word-ok 64 s (omega (arith, h.room)),
            h.s_ind,
            store_byte-ok (24 + shm.s_ind) c s (omega (arith, h.room, h.s_range)),
            load_word-ok 64 s1 (omega (arith, h.room)),
            h1.s_ind,
            e,
            store_word-ok 64 ((shm.s_ind + 1) % ring_sz) s1 (omega (arith, h.room)),
          )
          refl,
      stored-s_ind s1 (record shm { buf = set shm.buf shm.s_ind c }) ((shm.s_ind + 1) % ring_sz)
          (ring_range shm.s_ind) h1,
    )

receive_bytes-refines :
    (dst : Bytes) (s : Segment) (shm : SharedMemory)
    → Holds s shm
    → (s' : Segment) × (receive_bytes s dst ≡ ok ((receive_section shm dst).0, s'))
      × Holds s' (receive_section shm dst).1
unfolding receive_bytes receive_section
receive_bytes-refines dst s shm h = (
  stored s 128 ((shm.r_ind + 1) % ring_sz),
  rw
      (
        load_word-ok 128 s (omega (arith, h.room)),
        h.r_ind,
        load_byte-ok (24 + shm.r_ind) s (omega (arith, h.room, h.r_range)),
        next_pos-ring shm.r_ind h.r_range,
        store_word-ok 128 ((shm.r_ind + 1) % ring_sz) s (omega (arith, h.room)),
        h.buffer shm.r_ind h.r_range,
      )
      refl,
  stored-r_ind s shm ((shm.r_ind + 1) % ring_sz) (ring_range shm.r_ind) h,
)

test_bytes-refines :
    (s : Segment) (shm : SharedMemory) (full : ℕ)
    → Holds s shm
    → test_bytes s full ≡ ok (goes_on shm full)
unfolding test_bytes goes_on
test_bytes-refines s shm full h = rw (load_word-ok 0 s (omega (arith, h.room)), h.status) refl

leave_bytes-refines :
    (s : Segment) (shm : SharedMemory)
    → Holds s shm
    → (s' : Segment) × (leave_bytes s ≡ ok s') × Holds s' (record shm { status = 1 })
unfolding leave_bytes
leave_bytes-refines s shm h = (
  stored s 0 1,
  store_word-ok 0 1 s (omega (arith, h.room)),
  stored-status s shm 1 (omega arith) h,
)

-- Where the bytes of a segment hold the record, each piece of the two loops does to the bytes what it
-- does to the record, and without leaving the segment: the critical section of the sender, the test
-- of the receiver, its critical section, and what it does behind its loop.
pub bytes_refine :
    (src dst : Bytes) (full : ℕ) (s : Segment) (shm : SharedMemory)
    → Holds s shm
    → ((s' : Segment) × (send_bytes src s ≡ ok ((send_section src shm).0, s'))
        × Holds s' (send_section src shm).1)
      × (test_bytes s full ≡ ok (goes_on shm full))
      × ((s' : Segment) × (receive_bytes s dst ≡ ok ((receive_section shm dst).0, s'))
          × Holds s' (receive_section shm dst).1)
      × ((s' : Segment) × (leave_bytes s ≡ ok s') × Holds s' (record shm { status = 1 }))
bytes_refine src dst full s shm h = (
  send_bytes-refines src s shm h,
  test_bytes-refines s shm full h,
  receive_bytes-refines dst s shm h,
  leave_bytes-refines s shm h,
)

-- The bytes from an address on.
abbrev pub window : Memory → ℕ → ℕ → Bytes
window m at zero = []
window m at (suc n) = m at ∷ window m (at + 1) n

length-window : (m : Memory) (at n : ℕ) → length (window m at n) ≡ n
length-window m at zero = refl
length-window m at (suc n) = omega (arith, length-window m (at + 1) n)

get_or-window : (m : Memory) (at n j : ℕ) → j < n → get_or (window m at n) j 0 ≡ m (at + j)
get_or-window m at zero j h = absurd (omega (arith, h))
get_or-window m at (suc n) zero h = let e : at ≡ at + 0 = omega arith in ap m e
get_or-window m at (suc n) (suc j) h =
    let e : at + 1 + j ≡ at + suc j = omega arith in
    get_or-window m (at + 1) n j (omega (arith, h)) ∙ ap m e

-- The segment behind the three stores.
abbrev initialised : Segment → Segment
initialised s = stored (stored (stored s 0 1) 64 0) 128 0

initialised-Holds :
    (s : Segment) → 136 ≤ s.size → Holds (initialised s) (shared_memory_init (window s.bytes 24 40))
unfolding shared_memory_init
initialised-Holds s h =
    let a = (stored s 0 1).bytes in
    let b = (stored (stored s 0 1) 64 0).bytes in
    record {
      room = h;
      status =
          read_word-write_other b 128 8 0 0 8 (inl (omega arith))
          ∙ read_word-write_other a 64 8 0 0 8 (inl (omega arith))
          ∙ read_word-write_word s.bytes 0 8 1 (omega arith);
      s_ind =
          read_word-write_other b 128 8 0 64 8 (inl (omega arith))
          ∙ read_word-write_word a 64 8 0 (omega arith);
      r_ind = read_word-write_word b 128 8 0 (omega arith);
      s_range = omega arith;
      r_range = omega arith;
      length_buf = length-window s.bytes 24 40;
      buffer = λ j l.
          write_word-other b 128 8 0 (24 + j) (inl (omega (arith, l)))
          ∙ write_word-other a 64 8 0 (24 + j) (inl (omega (arith, l)))
          ∙ write_word-other s.bytes 0 8 1 (24 + j) (inr (omega arith))
          ∙ sym (get_or-window s.bytes 24 40 j l);
    }

-- `SharedMemoryInit` needs 136 bytes: with fewer, as with the 64 that are asked for, it writes behind
-- the segment; with as many, the segment then holds the status 1, both indices zero, and the bytes of
-- the buffer as they were.
pub init_segment-room :
    (s : Segment)
    → ((s.size < 136) × (init_segment s ≡ fault))
      ⊎ ((136 ≤ s.size)
          × (s' : Segment) × (init_segment s ≡ ok s')
          × Holds s' (shared_memory_init (window s.bytes 24 40)))
unfolding init_segment
init_segment-room s = elim (Bool-cases (leb 136 s.size)) [
  | inl e ↦
      (let h : 136 ≤ s.size = ground arith in
        inr (
          h,
          initialised s,
          rw
              (
                store_word-ok 0 1 s (omega (arith, h)),
                store_word-ok 64 0 (stored s 0 1) (omega (arith, h)),
                store_word-ok 128 0 (stored (stored s 0 1) 64 0) h,
              )
              refl,
          initialised-Holds s h,
        ))
  | inr e ↦ inl (ground arith, too_small (ground arith))
]
  where
    too_small : s.size < 136 → init_segment s ≡ fault
    too_small h = elim (Bool-cases (leb 8 s.size)) [
      | inr e ↦ rw (store_word-faults 0 1 s (ground arith)) refl
      | inl e ↦ elim (Bool-cases (leb 72 s.size)) [
        | inr f ↦
            rw
              (
                store_word-ok 0 1 s (ground arith),
                store_word-faults 64 0 (stored s 0 1) (ground arith),
              )
              refl
        | inl f ↦
            rw
              (
                store_word-ok 0 1 s (ground arith),
                store_word-ok 64 0 (stored s 0 1) (ground arith),
                store_word-faults 128 0 (stored (stored s 0 1) 64 0) h,
              )
              refl
      ]
    ]
