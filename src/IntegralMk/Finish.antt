-- ===== src/IntegralMk/Finish.antt =====
-- How the critical sections of the threads come to an end.
use sem.Common.{
  ℕ, suc, ◌+◌, ◌*◌, ◌≤◌, ◌≡◌, refl, sym, ap, ◌∙◌, Bool, true, false, ◌⊎◌, inl, inr, List, [], ◌∷◌,
  ◌++◌, length, arith,
}
use sem.IntegralMk.Main.{
  Stage, waiting, adding, finished, Thread, World, with_stage, enter_section, leave_section, Step,
  enter, leave, Reach, here, later, starting, begin,
}
use sem.IntegralMk.Counters.{entries, entries-length, holds, bit, sum_of, replaced, Inv, Reach-Inv}

-- The steps that a thread has still to make.
abbrev to_do : Stage → ℕ
to_do waiting = 2
to_do adding = 1
to_do finished = 0

abbrev left : World → ℕ
left w = sum_of (λ t. to_do t.stage) w.threads

pub steps : {v w : World} → Reach v w → ℕ
steps here = 0
steps (later r s) = suc (steps r)

Step-left : {w u : World} → Step w u → left w ≡ suc (left u)
unfolding enter_section leave_section
Step-left {w} (enter before s after e free) = omega (
  arith,
  replaced (λ t. to_do t.stage) before after w.threads (with_stage waiting s) (with_stage adding s)
      e,
)
Step-left {w} (leave before s after e) = omega (
  arith,
  replaced (λ t. to_do t.stage) before after w.threads (with_stage adding s) (with_stage finished s)
      e,
)

starting-left : (ss : List ℕ) → sum_of (λ t. to_do t.stage) (starting ss) ≡ 2 * length ss
starting-left [] = omega arith
starting-left (s ∷ ss) = omega (arith, starting-left ss)

-- Each step is one of the two of a thread.
pub steps-left :
    (ss : List ℕ) {w : World} (r : Reach (begin ss) w) → steps r + left w ≡ 2 * length ss
unfolding steps begin
steps-left ss here = omega (arith, starting-left ss)
steps-left ss (later r s) = omega (arith, steps-left ss r, Step-left s)

-- A thread inside its critical section, or none.
find_adding :
    (ts : List Thread)
    → ((before : List Thread) × (s : ℕ) × (after : List Thread) × (ts
          ≡ before ++ with_stage adding s ∷ after))
      ⊎ (sum_of (λ t. holds t.stage) ts ≡ 0)
find_adding [] = inr refl
find_adding (t ∷ ts) = look t.stage t.s refl (find_adding ts)
  where
    look :
        (st : Stage) (s : ℕ)
        → t ≡ with_stage st s
        → (((before : List Thread) × (s : ℕ) × (after : List Thread) × (ts
                ≡ before ++ with_stage adding s ∷ after))
            ⊎ (sum_of (λ t. holds t.stage) ts ≡ 0))
        → ((before : List Thread) × (s : ℕ) × (after : List Thread) × (t ∷ ts
              ≡ before ++ with_stage adding s ∷ after))
          ⊎ (sum_of (λ t. holds t.stage) (t ∷ ts) ≡ 0)
    look adding s e rest = inl ([], s, ts, ap (λ (x : Thread). x ∷ ts) e)
    look waiting s e (inl (b, s', a, q)) = inl (t ∷ b, s', a, ap (λ (l : List Thread). t ∷ l) q)
    look waiting s e (inr z) = inr (omega (arith, ap (λ (x : Thread). holds x.stage) e, z))
    look finished s e (inl (b, s', a, q)) = inl (t ∷ b, s', a, ap (λ (l : List Thread). t ∷ l) q)
    look finished s e (inr z) = inr (omega (arith, ap (λ (x : Thread). holds x.stage) e, z))

-- A thread in front of its critical section, or none.
find_waiting :
    (ts : List Thread)
    → ((before : List Thread) × (s : ℕ) × (after : List Thread) × (ts
          ≡ before ++ with_stage waiting s ∷ after))
      ⊎ (sum_of (λ t. to_do t.stage) ts ≡ sum_of (λ t. holds t.stage) ts)
find_waiting [] = inr refl
find_waiting (t ∷ ts) = look t.stage t.s refl (find_waiting ts)
  where
    look :
        (st : Stage) (s : ℕ)
        → t ≡ with_stage st s
        → (((before : List Thread) × (s : ℕ) × (after : List Thread) × (ts
                ≡ before ++ with_stage waiting s ∷ after))
            ⊎ (sum_of (λ t. to_do t.stage) ts ≡ sum_of (λ t. holds t.stage) ts))
        → ((before : List Thread) × (s : ℕ) × (after : List Thread) × (t ∷ ts
              ≡ before ++ with_stage waiting s ∷ after))
          ⊎ (sum_of (λ t. to_do t.stage) (t ∷ ts) ≡ sum_of (λ t. holds t.stage) (t ∷ ts))
    look waiting s e rest = inl ([], s, ts, ap (λ (x : Thread). x ∷ ts) e)
    look adding s e (inl (b, s', a, q)) = inl (t ∷ b, s', a, ap (λ (l : List Thread). t ∷ l) q)
    look adding s e (inr z) = inr (
        omega
          (arith, ap (λ (x : Thread). holds x.stage) e, ap (λ (x : Thread). to_do x.stage) e, z))
    look finished s e (inl (b, s', a, q)) = inl (t ∷ b, s', a, ap (λ (l : List Thread). t ∷ l) q)
    look finished s e (inr z) = inr (
        omega
          (arith, ap (λ (x : Thread). holds x.stage) e, ap (λ (x : Thread). to_do x.stage) e, z))

-- Where no step is left, nobody holds the mutex and no thread has anything to do.
nothing_left :
    {ss : List ℕ} {w : World}
    → Inv ss w
    → ((u : World) → ¬ Step w u)
    → (w.locked ≡ false) × (left w ≡ 0)
nothing_left {w = w} v final = elim (find_adding w.threads) [
  | inl (b, s, a, e) ↦ absurd (final (leave_section w b s a) (leave b s a e))
  | inr none_inside ↦
      (let free : w.locked ≡ false = unlocked w.locked (sym v.exclusive ∙ none_inside) in
        elim (find_waiting w.threads) [
          | inl (b, s, a, e) ↦ absurd (final (enter_section w b s a) (enter b s a e free))
          | inr same ↦ (free, same ∙ none_inside)
        ])
]
  where
    unlocked : (b : Bool) → bit b ≡ 0 → b ≡ false
    unlocked true h = absurd (omega (arith, h))
    unlocked false h = refl

to_do-entries : (st : Stage) → 1 ≤ entries st + to_do st
to_do-entries waiting = omega arith
to_do-entries adding = omega arith
to_do-entries finished = omega arith

all_entered :
    (ts : List Thread)
    → length ts ≤ sum_of (λ t. entries t.stage) ts + sum_of (λ t. to_do t.stage) ts
all_entered [] = omega arith
all_entered (t ∷ ts) = omega (arith, to_do-entries t.stage, all_entered ts)

-- A run of the threads that can go no further has made two steps for each of them; then the status is
-- the number of threads and the mutex is free.
pub threads_end :
    (ss : List ℕ) {w : World} (r : Reach (begin ss) w)
    → ((u : World) → ¬ Step w u)
    → (steps r ≡ 2 * length ss) × (w.status ≡ length ss) × (w.locked ≡ false)
threads_end ss {w} r final =
    let v = Reach-Inv ss w r in
    let (free, none) = nothing_left v final in
    (
      omega (arith, steps-left ss r, none),
      omega (arith, v.entered, v.number, all_entered w.threads, entries-length w.threads, none),
      free,
    )
