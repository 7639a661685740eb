-- ===== src/ShrMem/Sections.antt =====
-- The critical sections keep the invariant of the transfer.
use sem.Common.{
  suc, ◌+◌, ◌<◌, ◌≡◌, sym, ap, true, false, [], ◌∷◌, Bytes, length, arith, drop-eq-nil,
  drop-eq-cons,
}
use sem.ShrMem.Main.{
  SharedMemory, Semid, Sender, s_mutex, Receiver, r_mutex, r_break, World, send_section, goes_on,
  receive_section, after_send, after_receive,
}
use sem.ShrMem.Exclusion.{IsExclusive}
use sem.ShrMem.Ring.{put-IsWindow, get-IsWindow}
use sem.ShrMem.Places.{s_given, s_before, r_taken, r_broke, r_ended, s_given-le}
use sem.ShrMem.Counts.{Inv, goes_on-true, goes_on-false, none_finished, has_room}

pub send_section-Inv :
    (file src dst : Bytes) (shm : SharedMemory) (sem : Semid) (snd : Sender) (rcv : Receiver)
    → snd ≡ s_mutex
    → let w : World = record { src = src; dst = dst; shm = shm; sem = sem; snd = snd; rcv = rcv } in
      IsExclusive w → Inv file w → Inv file (after_send w)
unfolding send_section
send_section-Inv file [] dst shm sem snd rcv e x inv =
    let v = inv.window in
    let t = inv.counted in
    let end : inv.q ≡ length file = omega (arith, v.sent, drop-eq-nil inv.q file (sym v.rest)) in
    record {
      p = inv.p;
      q = inv.q;
      eofs = inv.eofs + 1;
      window = v;
      counted = record {
        count = omega (arith, t.count, ap s_given e);
        finished = λ h. end;
        running = λ h. let r = t.running h in (omega (arith, r.0, r.1, ap s_before e), omega arith);
        lost = t.lost;
      };
    }
send_section-Inv file (c ∷ src) dst shm sem snd rcv e x inv =
    let v = inv.window in
    let t = inv.counted in
    let w : World = record {
      src = c ∷ src;
      dst = dst;
      shm = shm;
      sem = sem;
      snd = snd;
      rcv = rcv;
    } in
    let (more, f, g) = drop-eq-cons inv.q file {x = c} {ys = src} 0 (sym v.rest) in
    let room = has_room w (length file) inv.p inv.q inv.eofs x t e more in
    let z = none_finished inv.eofs inv.q (length file) t.finished more in
    let b : r_broke rcv ≡ 0 =
      none_finished (r_broke rcv) inv.q (length file) (λ k. (t.lost k).1) more in
    record {
      p = inv.p;
      q = suc inv.q;
      eofs = inv.eofs;
      window = put-IsWindow file src dst shm.buf shm.s_ind shm.r_ind inv.p inv.q c v room;
      counted = record {
        count = omega (arith, t.count, ap s_given e);
        finished = λ h. absurd (omega (arith, z, h));
        running = λ h. let r = t.running h in (r.0, omega arith);
        lost = λ h. absurd (omega (arith, b, h));
      };
    }

pub receive_section-Inv :
    (file : Bytes) (w : World)
    → w.rcv ≡ r_mutex
    → goes_on w.shm w.sem.full ≡ true
    → Inv file w
    → Inv file (after_receive w)
unfolding receive_section
receive_section-Inv file w e h inv =
    let v = inv.window in
    let t = inv.counted in
    let r = t.running (ap r_ended e) in
    let g = goes_on-true w.shm w.sem.full h in
    let full : inv.p < inv.q = omega (arith, t.count, r.0, g, ap r_taken e, ap r_broke e) in
    record {
      p = suc inv.p;
      q = inv.q;
      eofs = inv.eofs;
      window = get-IsWindow file w.src w.dst w.shm.buf w.shm.s_ind w.shm.r_ind inv.p inv.q v full;
      counted = record {
        count = omega (arith, t.count, ap r_taken e, ap r_broke e);
        finished = t.finished;
        running = λ k. r;
        lost = λ k. absurd (omega (arith, k));
      };
    }

pub break-Inv :
    (file : Bytes) (w : World)
    → w.rcv ≡ r_mutex
    → goes_on w.shm w.sem.full ≡ false
    → Inv file w
    → Inv file (record w { rcv = r_break })
break-Inv file w e h inv =
    let t = inv.counted in
    let r = t.running (ap r_ended e) in
    let (s, z) = goes_on-false w.shm w.sem.full h in
    let one : inv.eofs ≡ 1 = omega (arith, r.0, s) in
    record {
      p = inv.p;
      q = inv.q;
      eofs = inv.eofs;
      window = inv.window;
      counted = record {
        count = omega (arith, t.count, ap r_taken e, ap r_broke e);
        finished = t.finished;
        running = λ k. r;
        lost = λ k. (
          omega (arith, t.count, one, z, s_given-le w.snd, ap r_taken e, ap r_broke e),
          t.finished (omega (arith, one)),
        );
      };
    }
