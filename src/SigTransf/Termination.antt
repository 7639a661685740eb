-- ===== src/SigTransf/Termination.antt =====
-- How many steps the transfer by signals takes.
use mathlib.Core.Path.{subst}
use sem.Common.{
  ℕ, suc, ◌+◌, ◌-◌, ◌*◌, ◌/◌, ◌≤◌, ◌<◌, ◌≡◌, Bool, true, false, Bytes, All, length, ◌==◌, ltb,
  if◌then◌else◌, Bool-cases, inl, inr, arith,
}
use sem.SigTransf.Bits.{IsMask}
use sem.SigTransf.Main.{
  Phase, opening, reading, sending, waiting, ended, Place, head, suspended, gone, World, begin,
  Step, open_fails, read_fails, opens, reads, sends, wakes, alarms, heads, one, zeroes, exits,
  Reach, here, later, child_exit, child_read, child_send, child_wake, parent_head, parent_usr1,
  parent_usr2, childexit,
}
use sem.SigTransf.Story.{view, Story}
use sem.SigTransf.Invariant.{Inv, Reach-Inv}

-- The rounds that are left of the loop over the bits of a byte.
abbrev rounds : ℕ → ℕ
rounds i =
    if ltb i 2
    then 1
    else if ltb i 4
    then 2
    else if ltb i 8
    then 3
    else if ltb i 16
    then 4
    else if ltb i 32
    then 5
    else if ltb i 64
    then 6
    else if ltb i 128
    then 7
    else 8

rounds-half : (i : ℕ) → IsMask i → (i / 2 == 0) ≡ false → rounds i ≡ rounds (i / 2) + 1
rounds-half i m h = ground arith

rounds-pos : (i : ℕ) → 1 ≤ rounds i
rounds-pos i = ground arith

-- What the child has still to do, with so many bytes to read.
left : Phase → ℕ → ℕ
left opening n = 33 * n + 1
left reading n = 33 * n
left (sending i c) n = 33 * n + 4 * rounds i
left (waiting i c) n = 33 * n + (4 * rounds i - 3)
left ended n = 0

place_left : Place → ℕ
place_left head = 2
place_left suspended = 1
place_left gone = 0

bit : Bool → ℕ
bit true = 1
bit false = 0

child_left : World → ℕ
child_left w = if w.alive then suc (left w.phase (length w.src)) else 0

measure : World → ℕ
measure w = place_left w.place + 2 * bit w.usr1 + 2 * bit w.usr2 + child_left w

abbrev Shrinks : World → World → Type 0
Shrinks w u = measure u < measure w

module _ (w : World) where
  exit-Shrinks : w.alive ≡ true → Shrinks w (child_exit w)
  unfolding measure child_left child_exit
  exit-Shrinks a = rw a (omega arith)

  opens-Shrinks : w.alive ≡ true → w.phase ≡ opening → Shrinks w (record w { phase = reading })
  unfolding measure child_left left
  opens-Shrinks a e = rw (a, e) (omega arith)

  reads-Shrinks : w.alive ≡ true → w.phase ≡ reading → Shrinks w (child_read w)
  unfolding measure child_left left child_read
  reads-Shrinks a e = ground arith

  sends-Shrinks : (i c : ℕ) → w.alive ≡ true → w.phase ≡ sending i c → Shrinks w (child_send i c w)
  unfolding measure child_left left child_send bit
  sends-Shrinks i c a e = ground (arith, rounds-pos i)

  wakes-Shrinks :
      (i c : ℕ) → IsMask i → w.alive ≡ true → w.phase ≡ waiting i c → Shrinks w (child_wake i c w)
  unfolding measure child_left left child_wake
  wakes-Shrinks i c m a e = elim (Bool-cases (i / 2 == 0)) [
    | inl z ↦ rw (a, e, z) (omega (arith, rounds-pos i))
    | inr z ↦ rw (a, e, z) (omega (arith, rounds-half i m z))
  ]

  heads-Shrinks : w.place ≡ head → Shrinks w (parent_head w)
  unfolding measure child_left place_left parent_head
  heads-Shrinks e = ground arith

  usr1-Shrinks : w.place ≡ suspended → w.usr1 ≡ true → Shrinks w (parent_usr1 w)
  unfolding measure child_left place_left bit parent_usr1
  usr1-Shrinks e s = rw (e, s) (omega arith)

  usr2-Shrinks : w.place ≡ suspended → w.usr2 ≡ true → Shrinks w (parent_usr2 w)
  unfolding measure child_left place_left bit parent_usr2
  usr2-Shrinks e s = rw (e, s) (omega arith)

  exits-Shrinks : w.place ≡ suspended → w.chld ≡ true → Shrinks w (childexit w)
  unfolding measure child_left place_left childexit
  exits-Shrinks e s = rw e (omega arith)

waiting-IsMask :
    {file : Bytes} {w : World} {i c : ℕ} → Inv file w → w.phase ≡ waiting i c → IsMask i
waiting-IsMask {file} {w} v e = (subst (λ p. Story file p (view w)) e v.story).0

Step-measure : {file : Bytes} {w u : World} → Inv file w → Step w u → measure u < measure w
Step-measure {w = w} v (open_fails a e) = exit-Shrinks w a
Step-measure {w = w} v (read_fails a e) = exit-Shrinks w a
Step-measure {w = w} v (opens a e) = opens-Shrinks w a e
Step-measure {w = w} v (reads a e) = reads-Shrinks w a e
Step-measure {w = w} v (sends {i} {c} a e) = sends-Shrinks w i c a e
Step-measure {w = w} v (wakes {i} {c} a e k) = wakes-Shrinks w i c (waiting-IsMask v e) a e
Step-measure {w = w} v (alarms a e) = exit-Shrinks w a
Step-measure {w = w} v (heads e) = heads-Shrinks w e
Step-measure {w = w} v (one e s) = usr1-Shrinks w e s
Step-measure {w = w} v (zeroes e s) = usr2-Shrinks w e s
Step-measure {w = w} v (exits e s) = exits-Shrinks w e s

-- The number of steps that led to a state.
abbrev pub steps : {file : Bytes} {w : World} → Reach file w → ℕ
steps here = 0
steps (later r s) = suc (steps r)

begin-measure : (file : Bytes) → measure (begin file) ≡ 33 * length file + 4
unfolding measure child_left left place_left bit
begin-measure file = omega arith

steps-measure :
    {file : Bytes} {w : World} (r : Reach file w)
    → All (λ b. b < 256) file
    → steps r + measure w ≤ 33 * length file + 4
steps-measure {file} here h = omega (arith, begin-measure file)
steps-measure (later r s) h = omega (arith, steps-measure r h, Step-measure (Reach-Inv h r) s)

-- In every interleaving, alarms included, the two processes make at most 33 steps for each byte of the
-- file and four more.
pub conversation_terminates :
    {file : Bytes} {w : World} (r : Reach file w)
    → All (λ b. b < 256) file
    → steps r ≤ 33 * length file + 4
conversation_terminates r h = omega (arith, steps-measure r h)
