-- ===== src/SigTransf/Tests.antt =====
-- Runs of the signal transfer by evaluation: the parent moves when it can, and otherwise the child.
use sem.Common.{
  ℕ, zero, suc, ◌+◌, ◌*◌, ◌≤◌, ◌≡◌, refl, Bool, true, false, ◌++◌, arith, Bytes, codes, ◌⊎◌, inl,
  inr,
}
use sem.SigTransf.Main.{
  Phase, opening, reading, sending, waiting, ended, Place, head, suspended, gone, World, begin,
  Step, opens, reads, sends, wakes, heads, one, zeroes, exits, Reach, here, later, child_read,
  child_send, child_wake, parent_head, parent_usr1, parent_usr2, childexit,
}
use sem.SigTransf.Termination.{steps, conversation_terminates}
use sem.SigTransf.Transfer.{written-IsPrefix, conversation_completes, Broken}

record RunOf (file : Bytes) : Type 0 where
  last : World
  reach : Reach file last

abbrev known : (b : Bool) → (b ≡ true) ⊎ (b ≡ false)
known true = inl refl
known false = inr refl

module _ {file : Bytes} {w : World} (r : Reach file w) where
  child_turn : (p : Phase) → w.phase ≡ p → w.alive ≡ true → RunOf file
  child_turn opening e a = record { last = _; reach = later r (opens a e) }
  child_turn reading e a = record { last = _; reach = later r (reads a e) }
  child_turn (sending i c) e a = record { last = _; reach = later r (sends a e) }
  child_turn (waiting i c) e a = elim (known w.ack) [
    | inl k ↦ record { last = _; reach = later r (wakes a e k) }
    | inr k ↦ record { last = w; reach = r }
  ]
  child_turn ended e a = record { last = w; reach = r }

  turn : (p : Place) → w.place ≡ p → RunOf file
  unfolding child_turn
  turn head e = record { last = _; reach = later r (heads e) }
  turn gone e = record { last = w; reach = r }
  turn suspended e = elim (known w.usr1) [
    | inl u ↦ record { last = _; reach = later r (one e u) }
    | inr _ ↦ elim (known w.usr2) [
      | inl u ↦ record { last = _; reach = later r (zeroes e u) }
      | inr _ ↦ elim (known w.chld) [
        | inl u ↦ record { last = _; reach = later r (exits e u) }
        | inr _ ↦ elim (known w.alive) [
          | inl a ↦ child_turn w.phase refl a
          | inr a ↦ record { last = w; reach = r }
        ]
      ]
    ]
  ]

run : (file : Bytes) → ℕ → RunOf file
unfolding turn
run file zero = record { last = begin file; reach = here }
run file (suc n) = let s = run file n in turn s.reach s.last.place refl

abbrev sent_letter : RunOf (codes "K")
sent_letter = run (codes "K") 40

finished : (w : World) → w.place ≡ gone → w.alive ≡ false → (u : World) → ¬ Step w u
finished w g a u (Step.open_fails b e) = cc
finished w g a u (Step.read_fails b e) = cc
finished w g a u (opens b e) = cc
finished w g a u (reads b e) = cc
finished w g a u (sends b e) = cc
finished w g a u (wakes b e k) = cc
finished w g a u (Step.alarms b e) = cc
finished w g a u (heads e) = cc
finished w g a u (one e s) = cc
finished w g a u (zeroes e s) = cc
finished w g a u (exits e s) = cc

written-IsPrefix_example : (rest : Bytes) × (sent_letter.last.written ++ rest ≡ codes "K")
unfolding run child_read child_send child_wake parent_head parent_usr1 parent_usr2 childexit
written-IsPrefix_example = written-IsPrefix {file = codes "K"} (omega arith) sent_letter.reach

conversation_completes_example :
    (sent_letter.last.place ≡ gone)
    × (Broken sent_letter.reach ⊎ (sent_letter.last.written ≡ codes "K"))
unfolding run child_read child_send child_wake parent_head parent_usr1 parent_usr2 childexit
conversation_completes_example =
    conversation_completes {file = codes "K"} (omega arith) sent_letter.reach
      (finished sent_letter.last refl refl)

conversation_terminates_example : steps sent_letter.reach ≤ 33 * 1 + 4
unfolding run child_read child_send child_wake parent_head parent_usr1 parent_usr2 childexit
conversation_terminates_example =
    conversation_terminates {file = codes "K"} sent_letter.reach (omega arith)
