-- ===== src/SigTransf/Story.antt =====
-- How far the two processes of the signal transfer are, at every point of the child's loops.
use Prim.Native.Nat.{bit_and}
use sem.Common.{
  ℕ, ◌+◌, ◌*◌, ◌/◌, ◌%◌, ◌<◌, ◌≡◌, ◌≢◌, refl, Bool, true, false, not, [], ◌∷◌, ◌++◌, append_assoc,
  arith, ap, sym, ◌∙◌, Bytes, ◌==◌, if◌then◌else◌, Bool-cases, ◌⊎◌, inl, inr,
}
use sem.SigTransf.Bits.{IsMask, top, top_zero, top_one, IsMask-half, IsMask-one}
use sem.SigTransf.Main.{
  Phase, opening, reading, sending, waiting, ended, World, child_send, child_wake, parent_head,
  parent_usr1, parent_usr2,
}

-- What the conversation depends on: the parent as it is once its loop's head has dealt with a whole
-- byte, what the child has not read, whether it lives, and the signals pending.
pub record View : Type 0 where
  pub saved : Bytes
  pub count : ℕ
  pub sum : ℕ
  pub src : Bytes
  pub alive : Bool
  pub ack : Bool
  pub usr1 : Bool
  pub usr2 : Bool

abbrev pub view : World → View
view w = record {
  saved = if w.counter == 0 then w.written ++ w.out_char % 256 ∷ [] else w.written;
  count = if w.counter == 0 then 128 else w.counter;
  sum = if w.counter == 0 then 0 else w.out_char;
  src = w.src;
  alive = w.alive;
  ack = w.ack;
  usr1 = w.usr1;
  usr2 = w.usr2;
}

-- No signal of the conversation is pending.
abbrev pub IsQuiet : View → Type 0
IsQuiet w = (w.usr1 ≡ false) × (w.usr2 ≡ false) × (w.ack ≡ false)

-- The parent is at the start of a byte, and has the bytes that the child has read.
abbrev pub IsEven : Bytes → View → Type 0
IsEven file w = (w.count ≡ 128) × (w.sum ≡ 0) × (w.saved ++ w.src ≡ file)

-- The parent waits for the bit of `i`, and has the bits above it.
abbrev pub IsAt : Bytes → View → ℕ → ℕ → Type 0
IsAt file w i c = (w.count ≡ i) × (w.sum ≡ top (2 * i) c) × (w.saved ++ c ∷ w.src ≡ file)

-- The bit of `i` is on its way.
abbrev pub IsSent : Bytes → View → ℕ → ℕ → Type 0
IsSent file w i c =
    (w.ack ≡ false)
    × (w.usr1 ≡ not (bit_and i c == 0))
    × (w.usr2 ≡ (bit_and i c == 0))
    × IsAt file w i c

-- The bit of `i` has arrived, and the parent is at the next one, or at the next byte.
abbrev pub IsNext : Bytes → View → ℕ → ℕ → Type 0
IsNext file w i c = if i / 2 == 0 then IsEven file w else IsAt file w (i / 2) c

abbrev pub IsAcked : Bytes → View → ℕ → ℕ → Type 0
IsAcked file w i c = (w.ack ≡ true) × (w.usr1 ≡ false) × (w.usr2 ≡ false) × IsNext file w i c

abbrev pub Story : Bytes → Phase → View → Type 0
Story file opening w = IsQuiet w × IsEven file w
Story file reading w = IsQuiet w × IsEven file w
Story file (sending i c) w = IsMask i × (c < 256) × IsQuiet w × IsAt file w i c
Story file (waiting i c) w = IsMask i × (c < 256) × (IsSent file w i c ⊎ IsAcked file w i c)
Story file ended w = IsQuiet w × IsEven file w × (w.alive ≡ false) × (w.src ≡ [])

-- The death of the child changes nothing that was said.
pub Story-exit :
    (file : Bytes) (p : Phase) (x : View)
    → Story file p x
    → Story file p (record x { alive = false })
Story-exit file opening x s = s
Story-exit file reading x s = s
Story-exit file (sending i c) x s = s
Story-exit file (waiting i c) x s = s
Story-exit file ended x (q, e, a, r) = (q, e, refl, r)

-- The head of the parent's loop does what `view` looks ahead to.
pub view-parent_head : (w : World) → view (parent_head w) ≡ view w
unfolding parent_head
view-parent_head w = ground arith

-- A bit that arrives.
arrives :
    {file : Bytes} (w : World) (i c n : ℕ)
    → IsMask i
    → c < 256
    → w.counter ≢ 0
    → IsAt file (view w) i c
    → n ≡ top i c
    → IsNext file (view (record w { out_char = n; counter = w.counter / 2 })) i c
arrives {file} w i c n mask byte counts (k, s, h) e =
    let live : (w.counter == 0) ≡ false = ground arith in
    let z : w.counter ≡ i = rw live at k in
    let t : w.out_char ≡ top (2 * i) c = rw live at s in
    let h' : w.written ++ c ∷ w.src ≡ file = rw live at h in
    elim (Bool-cases (i / 2 == 0)) [
      | inl last ↦
          let one_left : i ≡ 1 = IsMask-one i mask last in
          let d : (w.counter / 2 == 0) ≡ true = ground arith in
          let byte_is : n % 256 ≡ c = omega (arith, e, one_left, byte) in
          rw (last, d, byte_is) (refl, refl, append_assoc w.written (c ∷ []) w.src ∙ h')
      | inr more ↦
          let (_, twice) = IsMask-half i mask more in
          let d : (w.counter / 2 == 0) ≡ false = ground arith in
          rw (more, d, twice) (ap (λ (m : ℕ). m / 2) z, e, h')
    ]

-- A one is handled only while the bit of the child's mask is one and on its way.
pub usr1-Story :
    (file : Bytes) (w : World) (p : Phase)
    → Story file p (view w)
    → w.counter ≢ 0
    → w.usr1 ≡ true
    → Story file p (view (parent_usr1 w))
unfolding parent_usr1
usr1-Story file w opening ((u1, u2, a), e) c s = absurd (cc)
usr1-Story file w reading ((u1, u2, a), e) c s = absurd (cc)
usr1-Story file w ended ((u1, u2, a), e, d, r) c s = absurd (cc)
usr1-Story file w (sending i b) (m, l, (u1, u2, a), r) c s = absurd (cc)
usr1-Story file w (waiting i b) (m, l, inr (a, u1, u2, r)) c s = absurd (cc)
usr1-Story file w (waiting i b) (m, l, inl (a, u1, u2, at)) c s =
    let bit : (bit_and i b == 0) ≡ false = ground arith in
    let live : (w.counter == 0) ≡ false = ground arith in
    let k : w.counter ≡ i = rw live at (at.0) in
    let t : w.out_char ≡ top (2 * i) b = rw live at (at.1) in
    (
      m,
      l,
      inr (
        refl,
        refl,
        rw (u2, bit),
        arrives w i b (w.out_char + w.counter) m l c at (rw (k, t) (sym (top_one i b m l bit))),
      ),
    )

pub usr2-Story :
    (file : Bytes) (w : World) (p : Phase)
    → Story file p (view w)
    → w.counter ≢ 0
    → w.usr2 ≡ true
    → Story file p (view (parent_usr2 w))
unfolding parent_usr2
usr2-Story file w opening ((u1, u2, a), e) c s = absurd (cc)
usr2-Story file w reading ((u1, u2, a), e) c s = absurd (cc)
usr2-Story file w ended ((u1, u2, a), e, d, r) c s = absurd (cc)
usr2-Story file w (sending i b) (m, l, (u1, u2, a), r) c s = absurd (cc)
usr2-Story file w (waiting i b) (m, l, inr (a, u1, u2, r)) c s = absurd (cc)
usr2-Story file w (waiting i b) (m, l, inl (a, u1, u2, at)) c s =
    let bit : (bit_and i b == 0) ≡ true = cc in
    let live : (w.counter == 0) ≡ false = ground arith in
    let t : w.out_char ≡ top (2 * i) b = rw live at (at.1) in
    (
      m,
      l,
      inr (
        refl,
        rw (u1, bit),
        refl,
        arrives w i b w.out_char m l c at (t ∙ sym (top_zero i b m l bit)),
      ),
    )

pub child_wake-Story :
    (file : Bytes) (w : World) (i c : ℕ)
    → Story file (waiting i c) (view w)
    → w.ack ≡ true
    → Story file (child_wake i c w).phase (view (child_wake i c w))
unfolding child_wake
child_wake-Story file w i c (m, l, inl (a, u1, u2, r)) s = absurd (cc)
child_wake-Story file w i c (m, l, inr (a, u1, u2, n)) s = elim (Bool-cases (i / 2 == 0)) [
  | inl last ↦ rw last ((u1, u2, refl), (rw last at n))
  | inr more ↦ rw more ((IsMask-half i m more).0, l, (u1, u2, refl), (rw more at n))
]

pub child_send-Story :
    (file : Bytes) (w : World) (i c : ℕ)
    → Story file (sending i c) (view w)
    → Story file (child_send i c w).phase (view (child_send i c w))
unfolding child_send
child_send-Story file w i c (m, l, (u1, u2, a), at) = elim (Bool-cases (bit_and i c == 0)) [
  | inl z ↦ rw z (m, l, inl (a, rw z u1, rw z, at))
  | inr z ↦ rw z (m, l, inl (a, rw z, rw z u2, at))
]
