-- ===== src/ShrMem/Completion.antt =====
-- An order of the steps in which the whole file is written and both processes end: the sender and the
-- receiver take turns.
use sem.Common.{
  ℕ, ◌+◌, ◌%◌, ◌<◌, ◌≡◌, refl, ap, ◌∙◌, sym, [], ◌∷◌, ◌++◌, append_assoc, append-nil, Bytes, set,
  get_or, get_or-set_self, length, length-set, length-replicate, replicate, arith,
}
use sem.ShrMem.Main.{
  ring_sz, begin, shared_memory_init, semaphores_init, send_section, receive_section, goes_on,
  World, s_test, s_end, r_top, r_end, leaves, waits_empty, waits_mutex, sends, posts_mutex,
  posts_full, ends, receiver_full, receiver_mutex, receives, breaks, receiver_posts, receiver_empty,
  break_posts, break_empty, Reach, here, later,
}

-- Between two turns: both indices are at the same place.
abbrev between : Bytes → Bytes → ℕ → Bytes → World
between src dst i buf = record {
  src = src;
  dst = dst;
  shm = record { status = 1; s_ind = i; r_ind = i; buf = buf };
  sem = record { empty = 40; mutex = 1; full = 0 };
  snd = s_test;
  rcv = r_top;
}

-- The sender puts a byte into the ring, and the receiver takes it out.
one_turn :
    (file : Bytes) (c : ℕ) (src dst : Bytes) (i : ℕ) (buf : Bytes)
    → i < length buf
    → Reach file (between (c ∷ src) dst i buf)
    → Reach file (between src (dst ++ c ∷ []) ((i + 1) % ring_sz) (set buf i c))
unfolding send_section receive_section goes_on
one_turn file c src dst i buf h w0 =
    let w1 = later w0 (waits_empty refl (omega arith) (omega arith)) in
    let w2 = later w1 (waits_mutex refl (omega arith)) in
    let w3 = later w2 (sends refl) in
    let w4 = later w3 (posts_mutex refl) in
    let w5 = later w4 (posts_full refl) in
    let w6 = later w5 (receiver_full refl (omega arith)) in
    let w7 = later w6 (receiver_mutex refl (omega arith)) in
    let w8 = later w7 (receives refl refl) in
    let w9 = later w8 (receiver_posts refl) in
    let w10 = later w9 (receiver_empty refl) in
    let e : dst ++ get_or (set buf i c) i 0 ∷ [] ≡ dst ++ c ∷ [] =
      ap (λ (x : ℕ). dst ++ x ∷ []) (get_or-set_self buf i c 0 h) in
    rw (sym e) w10

-- At the end of the file both processes leave.
last_turn :
    (file dst : Bytes) (i : ℕ) (buf : Bytes)
    → Reach file (between [] dst i buf)
    → (w : World) × Reach file w × (w.dst ≡ dst) × (w.rcv ≡ r_end) × (w.snd ≡ s_end)
unfolding send_section goes_on
last_turn file dst i buf w0 =
    let w1 = later w0 (waits_empty refl (omega arith) (omega arith)) in
    let w2 = later w1 (waits_mutex refl (omega arith)) in
    let w3 = later w2 (sends refl) in
    let w4 = later w3 (posts_mutex refl) in
    let w5 = later w4 (posts_full refl) in
    let w6 = later w5 (leaves refl refl) in
    let w7 = later w6 (receiver_full refl (omega arith)) in
    let w8 = later w7 (receiver_mutex refl (omega arith)) in
    let w9 = later w8 (breaks refl refl) in
    let w10 = later w9 (break_posts refl) in
    let w11 = later w10 (break_empty refl) in
    let w12 = later w11 (ends refl (omega arith)) in (_, w12, refl, refl, refl)

turns :
    (file src dst : Bytes) (i : ℕ) (buf : Bytes)
    → i < ring_sz
    → length buf ≡ ring_sz
    → Reach file (between src dst i buf)
    → (w : World) × Reach file w × (w.dst ≡ dst ++ src) × (w.rcv ≡ r_end) × (w.snd ≡ s_end)
turns file [] dst i buf h n r = rw (append-nil dst) (last_turn file dst i buf r)
turns file (c ∷ src) dst i buf h n r =
    let (w, s, d, e, f) =
      turns file src (dst ++ c ∷ []) ((i + 1) % ring_sz) (set buf i c) (omega arith)
        (length-set buf i c ∙ n) (one_turn file c src dst i buf (omega (arith, h, n)) r) in
    (w, s, d ∙ append_assoc dst (c ∷ []) src, e, f)

-- For every file there is an order of the steps in which the receiver writes the whole file, and both
-- processes leave their loops.
pub transfer_can_complete :
    (file : Bytes) → (w : World) × Reach file w × (w.dst ≡ file) × (w.rcv ≡ r_end) × (w.snd ≡ s_end)
unfolding begin shared_memory_init semaphores_init
transfer_can_complete file =
    turns file file [] 0 (replicate ring_sz 0) (omega arith) (length-replicate {A = ℕ} ring_sz 0)
      here
