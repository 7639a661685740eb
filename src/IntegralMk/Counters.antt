-- ===== src/IntegralMk/Counters.antt =====
-- What the receiver finds in the shared memory.
use sem.Common.{
  ℕ, ◌+◌, ◌≤◌, ◌≡◌, refl, sym, ap, ◌∙◌, Bool, true, false, List, [], ◌∷◌, ◌++◌, length,
  length-append, arith,
}
use sem.IntegralMk.Main.{
  Stage, waiting, adding, finished, Thread, World, with_stage, enter_section, leave_section, Step,
  enter, leave, Reach, here, later, starting, begin,
}

-- What a thread has put into the status, and into the count, whether it holds the mutex, and what
-- it has still to add.
abbrev pub entries : Stage → ℕ
entries waiting = 0
entries adding = 1
entries finished = 1

abbrev pub holds : Stage → ℕ
holds waiting = 0
holds adding = 1
holds finished = 0

abbrev pub added : Thread → ℕ
added t = elim t.stage [ waiting ↦ 0 | adding ↦ 0 | finished ↦ t.s ]

abbrev pub sum_of : (Thread → ℕ) → List Thread → ℕ
sum_of f [] = 0
sum_of f (t ∷ ts) = f t + sum_of f ts

-- What the thread that holds the mutex has still to add.
abbrev pub pending : Thread → ℕ
pending t = elim t.stage [ waiting ↦ 0 | adding ↦ t.s | finished ↦ 0 ]

abbrev pub sum : List ℕ → ℕ
sum [] = 0
sum (s ∷ ss) = s + sum ss

pub sum_of-append :
    (f : Thread → ℕ) (ts us : List Thread) → sum_of f (ts ++ us) ≡ sum_of f ts + sum_of f us
sum_of-append f [] us = omega arith
sum_of-append f (t ∷ ts) us = omega (arith, sum_of-append f ts us)

abbrev pub bit : Bool → ℕ
bit true = 1
bit false = 0

bit-le : (b : Bool) → bit b ≤ 1
bit-le true = omega arith
bit-le false = omega arith

pub record Inv (ss : List ℕ) (w : World) : Type 0 where
  pub entered : w.status ≡ sum_of (λ t. entries t.stage) w.threads
  pub counted : w.count ≡ sum_of added w.threads
  pub exclusive : sum_of (λ t. holds t.stage) w.threads ≡ bit w.locked
  pub number : length w.threads ≡ length ss
  pub total : sum_of (λ t. t.s) w.threads ≡ sum ss

starting-length : (ss : List ℕ) → length (starting ss) ≡ length ss
starting-length [] = refl
starting-length (s ∷ ss) = omega (arith, starting-length ss)

pub starting-zero :
    (f : Thread → ℕ) (ss : List ℕ)
    → ((s : ℕ) → f (with_stage waiting s) ≡ 0)
    → sum_of f (starting ss) ≡ 0
starting-zero f [] h = refl
starting-zero f (s ∷ ss) h = omega (arith, h s, starting-zero f ss h)

starting-sum : (ss : List ℕ) → sum_of (λ t. t.s) (starting ss) ≡ sum ss
starting-sum [] = refl
starting-sum (s ∷ ss) = omega (arith, starting-sum ss)

begin-Inv : (ss : List ℕ) → Inv ss (begin ss)
unfolding begin
begin-Inv ss = record {
  entered = sym (starting-zero (λ t. entries t.stage) ss (λ s. refl));
  counted = sym (starting-zero added ss (λ s. refl));
  exclusive = starting-zero (λ t. holds t.stage) ss (λ s. refl);
  number = starting-length ss;
  total = starting-sum ss;
}

-- A thread replaced by another one changes a sum by their difference.
pub replaced :
    (f : Thread → ℕ) (before after ts : List Thread) (t u : Thread)
    → ts ≡ before ++ t ∷ after
    → sum_of f (before ++ u ∷ after) + f t ≡ sum_of f ts + f u
replaced f before after ts t u e =
    let a = sum_of-append f before (t ∷ after) in
    let b = sum_of-append f before (u ∷ after) in
    let c : sum_of f ts ≡ sum_of f (before ++ t ∷ after) = ap (sum_of f) e in omega (arith, a, b, c)

replaced-length :
    (before after ts : List Thread) (t u : Thread)
    → ts ≡ before ++ t ∷ after
    → length (before ++ u ∷ after) ≡ length ts
replaced-length before after ts t u e =
    omega (arith, length-append before (t ∷ after), length-append before (u ∷ after), ap length e)

Step-Inv : (ss : List ℕ) (w u : World) → Inv ss w → Step w u → Inv ss u
unfolding enter_section leave_section
Step-Inv ss w u inv (enter before s after e free) =
    let old = with_stage waiting s in
    let new = with_stage adding s in
    let x : bit w.locked ≡ 0 = ap bit free in
    record {
      entered =
          omega
            (arith, inv.entered, replaced (λ t. entries t.stage) before after w.threads old new e);
      counted = omega (arith, inv.counted, replaced added before after w.threads old new e);
      exclusive =
          omega (
            arith,
            inv.exclusive,
            x,
            replaced (λ t. holds t.stage) before after w.threads old new e,
          );
      number = replaced-length before after w.threads old new e ∙ inv.number;
      total = omega (arith, inv.total, replaced (λ t. t.s) before after w.threads old new e);
    }
Step-Inv ss w u inv (leave before s after e) =
    let old = with_stage adding s in
    let new = with_stage finished s in
    let one = sum_of-append (λ t. holds t.stage) before (old ∷ after) in
    let same : sum_of (λ t. holds t.stage) w.threads
        ≡ sum_of (λ t. holds t.stage) (before ++ old ∷ after) =
      ap (sum_of (λ t. holds t.stage)) e in
    let x = bit-le w.locked in
    record {
      entered =
          omega
            (arith, inv.entered, replaced (λ t. entries t.stage) before after w.threads old new e);
      counted = omega (arith, inv.counted, replaced added before after w.threads old new e);
      exclusive = omega (
        arith,
        inv.exclusive,
        x,
        one,
        same,
        replaced (λ t. holds t.stage) before after w.threads old new e,
      );
      number = replaced-length before after w.threads old new e ∙ inv.number;
      total = omega (arith, inv.total, replaced (λ t. t.s) before after w.threads old new e);
    }

pub Reach-Inv : (ss : List ℕ) (w : World) → Reach (begin ss) w → Inv ss w
Reach-Inv ss _ here = begin-Inv ss
Reach-Inv ss _ (later {u} {v} r st) = Step-Inv ss u v (Reach-Inv ss u r) st

entries-le : (st : Stage) → entries st ≤ 1
entries-le waiting = omega arith
entries-le adding = omega arith
entries-le finished = omega arith

entered_adds :
    (st : Stage) (s : ℕ) → entries st ≡ 1 → added (with_stage st s) + pending (with_stage st s) ≡ s
entered_adds waiting s h = absurd (omega (arith, h))
entered_adds adding s h = omega arith
entered_adds finished s h = omega arith

pub entries-length : (ts : List Thread) → sum_of (λ t. entries t.stage) ts ≤ length ts
entries-length [] = omega arith
entries-length (t ∷ ts) = omega (arith, entries-le t.stage, entries-length ts)

-- When every thread has entered, what is counted and what is pending is all.
all_entered :
    (ts : List Thread)
    → length ts ≡ sum_of (λ t. entries t.stage) ts
    → sum_of added ts + sum_of pending ts ≡ sum_of (λ t. t.s) ts
all_entered [] h = omega arith
all_entered (t ∷ ts) h =
    let a = entries-le t.stage in
    let b = entries-length ts in
    let c = all_entered ts (omega (arith, a, b, h)) in
    let d = entered_adds t.stage t.s (omega (arith, a, b, h)) in omega (arith, c, d)

not_held : (st : Stage) (s : ℕ) → holds st ≡ 0 → pending (with_stage st s) ≡ 0
not_held waiting s h = refl
not_held adding s h = absurd (omega (arith, h))
not_held finished s h = refl

none_pending : (ts : List Thread) → sum_of (λ t. holds t.stage) ts ≡ 0 → sum_of pending ts ≡ 0
none_pending [] h = refl
none_pending (t ∷ ts) h =
    let a = not_held t.stage t.s (omega (arith, h)) in
    let b = none_pending ts (omega (arith, h)) in omega (arith, a, b)

-- Once the status is the number of the threads, in every order of their critical sections, the
-- count lacks no more than what the thread inside its critical section has to add, and it is the
-- sum of what all of them counted if nobody holds the mutex.
pub receive-total :
    (ss : List ℕ) (w : World)
    → Reach (begin ss) w
    → w.status ≡ length ss
    → (w.count + sum_of pending w.threads ≡ sum ss) × (w.locked ≡ false → w.count ≡ sum ss)
receive-total ss w r h =
    let inv = Reach-Inv ss w r in
    let a = all_entered w.threads (omega (arith, inv.entered, inv.number, h)) in
    (
      omega (arith, a, inv.counted, inv.total),
      λ free.
          let b = none_pending w.threads (inv.exclusive ∙ ap bit free) in
          omega (arith, a, b, inv.counted, inv.total),
    )
