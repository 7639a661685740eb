-- ===== src/ShrMem/Transfer.antt =====
-- The whole transfer: in every interleaving what the receiver has written is the front of the file.
use sem.Common.{
  ◌≤◌, ◌<◌, ◌≡◌, ap, ◌∙◌, ◌++◌, Bytes, length, length-drop, drop, arith, take-append-drop,
}
use sem.ShrMem.Main.{
  ring_sz, r_end, World, Step, leaves, waits_empty, waits_mutex, sends, posts_mutex, posts_full,
  ends, receiver_full, receiver_mutex, receives, breaks, receiver_posts, receiver_empty,
  break_posts, break_empty, Reach, here, later,
}
use sem.ShrMem.Exclusion.{IsExclusive, Reach-IsExclusive}
use sem.ShrMem.Ring.{IsWindow}
use sem.ShrMem.Places.{s_given, s_before, r_taken, r_broke, r_ended}
use sem.ShrMem.Counts.{IsCounted, Inv, begin-Inv}
use sem.ShrMem.Sections.{send_section-Inv, receive_section-Inv, break-Inv}

-- The steps that change no bytes; the window stays as it is.
moved :
    (file : Bytes) (w u : World) (inv : Inv file w)
    → IsWindow file u.src u.dst u.shm.buf u.shm.s_ind u.shm.r_ind inv.p inv.q
    → IsCounted u (length file) inv.p inv.q inv.eofs
    → Inv file u
moved file w u inv v t = record { p = inv.p; q = inv.q; eofs = inv.eofs; window = v; counted = t }

Step-Inv : (file : Bytes) (w u : World) → IsExclusive w → Inv file w → Step w u → Inv file u
Step-Inv file w _ x inv (sends e) =
    send_section-Inv file w.src w.dst w.shm w.sem w.snd w.rcv e x inv
Step-Inv file w _ x inv (receives e h) = receive_section-Inv file w e h inv
Step-Inv file w _ x inv (breaks e h) = break-Inv file w e h inv
Step-Inv file w _ x inv (leaves e h) =
    let t = inv.counted in
    moved file w _ inv inv.window (record {
      count = omega (arith, t.count, ap s_given e);
      finished = t.finished;
      running = λ k. let r = t.running k in (r.0, omega (arith, r.0, r.1, ap s_before e));
      lost = t.lost;
    })
Step-Inv file w _ x inv (waits_empty e h k0) =
    let t = inv.counted in
    moved file w _ inv inv.window (record {
      count = omega (arith, t.count, ap s_given e);
      finished = t.finished;
      running = λ k. let r = t.running k in (r.0, omega (arith, r.0, r.1, ap s_before e, h));
      lost = t.lost;
    })
Step-Inv file w _ x inv (waits_mutex e h0) =
    let t = inv.counted in
    moved file w _ inv inv.window (record {
      count = omega (arith, t.count, ap s_given e);
      finished = t.finished;
      running = λ k. let r = t.running k in (r.0, omega (arith, r.0, r.1, ap s_before e));
      lost = t.lost;
    })
Step-Inv file w _ x inv (posts_mutex e) =
    let t = inv.counted in
    moved file w _ inv inv.window (record {
      count = omega (arith, t.count, ap s_given e);
      finished = t.finished;
      running = λ k. let r = t.running k in (r.0, omega (arith, r.0, r.1, ap s_before e));
      lost = t.lost;
    })
Step-Inv file w _ x inv (posts_full e) =
    let t = inv.counted in
    moved file w _ inv inv.window (record {
      count = omega (arith, t.count, ap s_given e);
      finished = t.finished;
      running = λ k. let r = t.running k in (r.0, omega (arith, r.0, r.1, ap s_before e));
      lost = t.lost;
    })
Step-Inv file w _ x inv (ends e h0) =
    let t = inv.counted in
    moved file w _ inv inv.window (record {
      count = omega (arith, t.count, ap s_given e);
      finished = t.finished;
      running = λ k. let r = t.running k in (r.0, omega (arith, r.0, r.1, ap s_before e));
      lost = t.lost;
    })
Step-Inv file w _ x inv (receiver_full e h0) =
    let t = inv.counted in
    moved file w _ inv inv.window (record {
      count = omega (arith, t.count, ap r_taken e, ap r_broke e, h0);
      finished = t.finished;
      running = λ k. t.running (ap r_ended e);
      lost = λ k. absurd (omega (arith, k));
    })
Step-Inv file w _ x inv (receiver_mutex e h0) =
    let t = inv.counted in
    moved file w _ inv inv.window (record {
      count = omega (arith, t.count, ap r_taken e, ap r_broke e);
      finished = t.finished;
      running = λ k. t.running (ap r_ended e);
      lost = λ k. absurd (omega (arith, k));
    })
Step-Inv file w _ x inv (receiver_posts e) =
    let t = inv.counted in
    moved file w _ inv inv.window (record {
      count = omega (arith, t.count, ap r_taken e, ap r_broke e);
      finished = t.finished;
      running = λ k. t.running (ap r_ended e);
      lost = λ k. absurd (omega (arith, k));
    })
Step-Inv file w _ x inv (receiver_empty e) =
    let t = inv.counted in
    moved file w _ inv inv.window (record {
      count = omega (arith, t.count, ap r_taken e, ap r_broke e);
      finished = t.finished;
      running = λ k. t.running (ap r_ended e);
      lost = λ k. absurd (omega (arith, k));
    })
Step-Inv file w _ x inv (break_posts e) =
    let t = inv.counted in
    moved file w _ inv inv.window (record {
      count = omega (arith, t.count, ap r_taken e, ap r_broke e);
      finished = t.finished;
      running = λ k. t.running (ap r_ended e);
      lost = λ k. t.lost (omega (arith, ap r_broke e));
    })
Step-Inv file w _ x inv (break_empty e) =
    let t = inv.counted in
    moved file w _ inv inv.window (record {
      count = omega (arith, t.count, ap r_taken e, ap r_broke e);
      finished = t.finished;
      running = λ k. absurd (omega (arith, k));
      lost = λ k. t.lost (omega (arith, ap r_broke e));
    })

Reach-Inv : (file : Bytes) (w : World) → Reach file w → Inv file w
Reach-Inv file _ here = begin-Inv file
Reach-Inv file _ (later {u} {v} r s) =
    Step-Inv file u v (Reach-IsExclusive file u r) (Reach-Inv file u r) s

-- Where every read gives the next byte of the file or its end and every write takes its byte, in every
-- interleaving the receiver has written the front of the file, and the indices of the ring stay inside
-- it.
pub written-IsFront :
    (file : Bytes) (w : World)
    → Reach file w
    → (rest : Bytes) × (w.dst ++ rest ≡ file) × (w.shm.s_ind < ring_sz) × (w.shm.r_ind < ring_sz)
written-IsFront file w r =
    let inv = Reach-Inv file w r in
    let v = inv.window in
    (
      drop inv.p file,
      ap (λ (l : Bytes). l ++ drop inv.p file) v.written ∙ take-append-drop inv.p file,
      omega (arith, v.s_at),
      omega (arith, v.r_at),
    )

-- Where every read gives the next byte of the file or its end and every write takes its byte, a
-- receiver that has left its loop has written the whole file or all but its last byte.
pub receiver_end :
    (file : Bytes) (w : World)
    → Reach file w
    → w.rcv ≡ r_end
    → (rest : Bytes) × (w.dst ++ rest ≡ file) × (length rest ≤ 1)
receiver_end file w r e =
    let inv = Reach-Inv file w r in
    let v = inv.window in
    let l = inv.counted.lost (omega (arith, ap r_broke e)) in
    (
      drop inv.p file,
      ap (λ (l : Bytes). l ++ drop inv.p file) v.written ∙ take-append-drop inv.p file,
      omega (arith, l.0, l.1, length-drop inv.p file),
    )
