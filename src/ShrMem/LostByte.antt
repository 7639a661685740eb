-- ===== src/ShrMem/LostByte.antt =====
-- An order of the steps in which the last byte is not written, and the sender never ends.
use sem.Common.{ℕ, ◌≡◌, refl, [], ◌∷◌, arith}
use sem.ShrMem.Main.{
  begin, shared_memory_init, semaphores_init, send_section, goes_on, World, s_spin, r_end, Step,
  leaves, waits_empty, waits_mutex, sends, posts_mutex, posts_full, ends, receiver_full,
  receiver_mutex, receives, breaks, receiver_posts, receiver_empty, break_posts, break_empty, Reach,
  here, later,
}

-- Nothing moves once the receiver is out and the sender waits for a status that nobody sets.
no_step : (w : World) → w.snd ≡ s_spin → w.shm.status ≡ 0 → w.rcv ≡ r_end → (u : World) → ¬ Step w u
no_step w s z r _ (leaves e h) = cc
no_step w s z r _ (waits_empty e h k) = cc
no_step w s z r _ (waits_mutex e h) = cc
no_step w s z r _ (sends e) = cc
no_step w s z r _ (posts_mutex e) = cc
no_step w s z r _ (posts_full e) = cc
no_step w s z r _ (ends e h) = absurd (h z)
no_step w s z r _ (receiver_full e h) = cc
no_step w s z r _ (receiver_mutex e h) = cc
no_step w s z r _ (receives e h) = cc
no_step w s z r _ (breaks e h) = cc
no_step w s z r _ (receiver_posts e) = cc
no_step w s z r _ (receiver_empty e) = cc
no_step w s z r _ (break_posts e) = cc
no_step w s z r _ (break_empty e) = cc

-- When the receiver has taken the post of the last byte and waits for `mutex` while the sender
-- meets the end of its file, the receiver finds the status and `full` both zero and leaves its loop:
-- a file of one byte can arrive as an empty one. The sender can then test the status that the
-- receiver has set, meet the end of the file again, and wait for ever.
pub last_byte_lost :
    (c : ℕ)
    → (w : World) × Reach (c ∷ []) w
      × (w.rcv ≡ r_end)
      × (w.dst ≡ [])
      × (w.snd ≡ s_spin)
      × ((u : World) → ¬ Step w u)
unfolding begin semaphores_init shared_memory_init send_section goes_on
last_byte_lost c =
    let w0 : Reach (c ∷ []) (begin (c ∷ [])) = here in
    let w1 = later w0 (waits_empty refl (omega arith) (omega arith)) in
    let w2 = later w1 (waits_mutex refl (omega arith)) in
    let w3 = later w2 (sends refl) in
    let w4 = later w3 (posts_mutex refl) in
    let w5 = later w4 (posts_full refl) in
    let w6 = later w5 (waits_empty refl (omega arith) (omega arith)) in
    let w7 = later w6 (waits_mutex refl (omega arith)) in
    let w8 = later w7 (receiver_full refl (omega arith)) in
    let w9 = later w8 (sends refl) in
    let w10 = later w9 (posts_mutex refl) in
    let w11 = later w10 (receiver_mutex refl (omega arith)) in
    let w12 = later w11 (breaks refl refl) in
    let w13 = later w12 (break_posts refl) in
    let w14 = later w13 (break_empty refl) in
    let w15 = later w14 (posts_full refl) in
    let w16 = later w15 (waits_empty refl (omega arith) (omega arith)) in
    let w17 = later w16 (waits_mutex refl (omega arith)) in
    let w18 = later w17 (sends refl) in
    let w19 = later w18 (posts_mutex refl) in
    let w20 = later w19 (posts_full refl) in
    let w21 = later w20 (leaves refl refl) in (_, w21, refl, refl, refl, no_step _ refl refl refl)
