-- ===== src/ShrMem/Counts.antt =====
-- The invariant of the transfer: the posts of `full` against the bytes of the ring.
use sem.Common.{ℕ, zero, suc, ◌+◌, ◌≤◌, ◌<◌, ◌≡◌, ◌≢◌, refl, ap, true, false, Bytes, length, arith}
use sem.ShrMem.Main.{
  ring_sz, SharedMemory, shared_memory_init, semaphores_init, s_mutex, World, begin, goes_on,
}
use sem.ShrMem.Exclusion.{s_has, IsExclusive}
use sem.ShrMem.Ring.{IsWindow}
use sem.ShrMem.Places.{s_given, s_before, r_taken, r_broke, r_ended, r_taken-le}

-- Each post of `full` stands for a byte of the ring or for an end of the file; `len` is the file's
-- length, and `eofs` counts the ends that the sender has met.
pub record IsCounted (w : World) (len p q eofs : ℕ) : Type 0 where
  pub count : w.sem.full + s_given w.snd + r_taken w.rcv + r_broke w.rcv + p ≡ q + eofs
  pub finished : 0 < eofs → q ≡ len
  pub running : r_ended w.rcv ≡ 0 → (w.shm.status + eofs ≡ 1) × (s_before w.snd ≤ w.shm.status)
  pub lost : 0 < r_broke w.rcv → (q ≤ p + 1) × (q ≡ len)

-- The state of the transfer behind `p` bytes written and `q` bytes sent.
pub record Inv (file : Bytes) (w : World) : Type 0 where
  pub p : ℕ
  pub q : ℕ
  pub eofs : ℕ
  pub window : IsWindow file w.src w.dst w.shm.buf w.shm.s_ind w.shm.r_ind p q
  pub counted : IsCounted w (length file) p q eofs

pub begin-Inv : (file : Bytes) → Inv file (begin file)
unfolding begin semaphores_init shared_memory_init
begin-Inv file = record {
  p = 0;
  q = 0;
  eofs = 0;
  window = record {
    written = refl;
    rest = refl;
    sent = omega arith;
    order = omega arith;
    size = refl;
    s_at = refl;
    r_at = refl;
    stored = λ i a b. absurd (omega arith);
  };
  counted = record {
    count = refl;
    finished = λ h. absurd (omega arith);
    running = λ h. (refl, omega arith);
    lost = λ h. absurd (omega arith);
  };
}

pub goes_on-true : (shm : SharedMemory) (full : ℕ) → goes_on shm full ≡ true → 1 ≤ shm.status + full
unfolding goes_on
goes_on-true shm full h = ground arith

pub goes_on-false :
    (shm : SharedMemory) (full : ℕ) → goes_on shm full ≡ false → (shm.status ≢ 1) × (full ≡ 0)
unfolding goes_on
goes_on-false shm full h = ground arith

pub none_finished : (eofs q len : ℕ) → (0 < eofs → q ≡ len) → q < len → eofs ≡ 0
none_finished zero q len f h = refl
none_finished (suc n) q len f h = absurd (omega (arith, f (omega arith), h))

-- A byte is sent only where the ring has room.
pub has_room :
    (w : World) (len p q eofs : ℕ)
    → IsExclusive w
    → IsCounted w len p q eofs
    → w.snd ≡ s_mutex
    → q < len
    → (q < p + ring_sz)
has_room w len p q eofs x t e h =
    let z = none_finished eofs q len t.finished h in
    let b : r_broke w.rcv ≡ 0 = none_finished (r_broke w.rcv) q len (λ k. (t.lost k).1) h in
    omega (arith, x.places, t.count, z, b, ap s_given e, ap s_has e, r_taken-le w.rcv)
