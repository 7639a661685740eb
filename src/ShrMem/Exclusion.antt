-- ===== src/ShrMem/Exclusion.antt =====
-- The two processes exclude one another, and the semaphores keep count of the ring.
use sem.Common.{ℕ, ◌+◌, ◌≤◌, ◌≡◌, refl, ap, Bytes, arith}
use sem.ShrMem.Main.{
  ring_sz, shared_memory_init, semaphores_init, Sender, s_test, s_empty, s_mutex, s_written,
  s_posted, s_spin, s_end, Receiver, r_top, r_full, r_mutex, r_read, r_posted, r_break, r_left,
  r_end, World, begin, Step, leaves, waits_empty, waits_mutex, sends, posts_mutex, posts_full, ends,
  receiver_full, receiver_mutex, receives, breaks, receiver_posts, receiver_empty, break_posts,
  break_empty, Reach, here, later,
}

-- Who holds `mutex`.
abbrev pub s_holds : Sender → ℕ
s_holds s_test = 0
s_holds s_empty = 0
s_holds s_mutex = 1
s_holds s_written = 1
s_holds s_posted = 0
s_holds s_spin = 0
s_holds s_end = 0

abbrev pub r_holds : Receiver → ℕ
r_holds r_top = 0
r_holds r_full = 0
r_holds r_mutex = 1
r_holds r_read = 1
r_holds r_posted = 0
r_holds r_break = 1
r_holds r_left = 0
r_holds r_end = 0

-- Who has taken a place of the ring and not given it on.
abbrev pub s_has : Sender → ℕ
s_has s_test = 0
s_has s_empty = 1
s_has s_mutex = 1
s_has s_written = 1
s_has s_posted = 1
s_has s_spin = 0
s_has s_end = 0

abbrev pub r_has : Receiver → ℕ
r_has r_top = 0
r_has r_full = 1
r_has r_mutex = 1
r_has r_read = 1
r_has r_posted = 1
r_has r_break = 1
r_has r_left = 1
r_has r_end = 0

pub record IsExclusive (w : World) : Type 0 where
  pub one : w.sem.mutex + s_holds w.snd + r_holds w.rcv ≡ 1
  pub places : w.sem.empty + w.sem.full + s_has w.snd + r_has w.rcv ≡ ring_sz

begin-IsExclusive : (file : Bytes) → IsExclusive (begin file)
unfolding begin semaphores_init shared_memory_init
begin-IsExclusive file = record { one = refl; places = refl }

Step-IsExclusive : (w u : World) → IsExclusive w → Step w u → IsExclusive u
Step-IsExclusive w _ inv (leaves e h) = record {
  one = omega (arith, inv.one, ap s_holds e);
  places = omega (arith, inv.places, ap s_has e);
}
Step-IsExclusive w _ inv (waits_empty e h k) = record {
  one = omega (arith, inv.one, ap s_holds e, k);
  places = omega (arith, inv.places, ap s_has e, k);
}
Step-IsExclusive w _ inv (waits_mutex e h) = record {
  one = omega (arith, inv.one, ap s_holds e, h);
  places = omega (arith, inv.places, ap s_has e, h);
}
Step-IsExclusive w _ inv (sends e) = record {
  one = omega (arith, inv.one, ap s_holds e);
  places = omega (arith, inv.places, ap s_has e);
}
Step-IsExclusive w _ inv (posts_mutex e) = record {
  one = omega (arith, inv.one, ap s_holds e);
  places = omega (arith, inv.places, ap s_has e);
}
Step-IsExclusive w _ inv (posts_full e) = record {
  one = omega (arith, inv.one, ap s_holds e);
  places = omega (arith, inv.places, ap s_has e);
}
Step-IsExclusive w _ inv (ends e h) = record {
  one = omega (arith, inv.one, ap s_holds e);
  places = omega (arith, inv.places, ap s_has e);
}
Step-IsExclusive w _ inv (receiver_full e h) = record {
  one = omega (arith, inv.one, ap r_holds e, h);
  places = omega (arith, inv.places, ap r_has e, h);
}
Step-IsExclusive w _ inv (receiver_mutex e h) = record {
  one = omega (arith, inv.one, ap r_holds e, h);
  places = omega (arith, inv.places, ap r_has e, h);
}
Step-IsExclusive w _ inv (receives e h) = record {
  one = omega (arith, inv.one, ap r_holds e);
  places = omega (arith, inv.places, ap r_has e);
}
Step-IsExclusive w _ inv (breaks e h) = record {
  one = omega (arith, inv.one, ap r_holds e);
  places = omega (arith, inv.places, ap r_has e);
}
Step-IsExclusive w _ inv (receiver_posts e) = record {
  one = omega (arith, inv.one, ap r_holds e);
  places = omega (arith, inv.places, ap r_has e);
}
Step-IsExclusive w _ inv (receiver_empty e) = record {
  one = omega (arith, inv.one, ap r_holds e);
  places = omega (arith, inv.places, ap r_has e);
}
Step-IsExclusive w _ inv (break_posts e) = record {
  one = omega (arith, inv.one, ap r_holds e);
  places = omega (arith, inv.places, ap r_has e);
}
Step-IsExclusive w _ inv (break_empty e) = record {
  one = omega (arith, inv.one, ap r_holds e);
  places = omega (arith, inv.places, ap r_has e);
}

pub Reach-IsExclusive : (file : Bytes) (w : World) → Reach file w → IsExclusive w
Reach-IsExclusive file _ here = begin-IsExclusive file
Reach-IsExclusive file _ (later {u} {v} r st) = Step-IsExclusive u v (Reach-IsExclusive file u r) st

-- In every interleaving at most one of the two processes is inside its critical section, and the
-- bytes announced and the free places are no more than the ring has.
pub sections_exclude :
    (file : Bytes) (w : World)
    → Reach file w
    → (s_holds w.snd + r_holds w.rcv ≤ 1) × (w.sem.empty + w.sem.full ≤ ring_sz)
sections_exclude file w r =
    let inv = Reach-IsExclusive file w r in (omega (arith, inv.one), omega (arith, inv.places))
