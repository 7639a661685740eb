-- ===== src/IntegralMk/Late.antt =====
-- Points that a test of the integral loses to the next one.
use sem.Common.{
  ℕ, ◌+◌, ◌≡◌, refl, ap, sym, ◌∙◌, false, List, [], ◌∷◌, ◌++◌, append_assoc, append-nil, length,
  length-append, arith,
}
use sem.IntegralMk.Main.{
  finished, Thread, World, with_stage, enter_section, leave_section, Step, enter, leave, Reach,
  here, later, starting, begin, reset,
}
use sem.IntegralMk.Counters.{sum}

abbrev ended : List ℕ → List Thread
ended [] = []
ended (s ∷ ss) = with_stage finished s ∷ ended ss

ended-append : (ss ts : List ℕ) → ended (ss ++ ts) ≡ ended ss ++ ended ts
ended-append [] ts = refl
ended-append (s ∷ ss) ts = ap (λ (l : List Thread). with_stage finished s ∷ l) (ended-append ss ts)

-- The first threads have ended, and the others wait.
abbrev between : ℕ → ℕ → List ℕ → List ℕ → World
between status count before after = record {
  status = status;
  count = count;
  locked = false;
  threads = ended before ++ starting after;
}

one_more :
    (w : World) (status count : ℕ) (before : List ℕ) (s : ℕ) (after : List ℕ)
    → Reach w (between status count before (s ∷ after))
    → Reach w (between (status + 1) (count + s) (before ++ s ∷ []) after)
unfolding enter_section leave_section
one_more w status count before s after r =
    let a = later r (enter (ended before) s (starting after) refl refl) in
    let b = later a (leave (ended before) s (starting after) refl) in
    let e : ended before ++ with_stage finished s ∷ starting after
        ≡ ended (before ++ s ∷ []) ++ starting after =
      sym (append_assoc (ended before) (with_stage finished s ∷ []) (starting after))
      ∙ ap (λ (l : List Thread). l ++ starting after) (sym (ended-append before (s ∷ []))) in
    rw (sym e) b

several_more :
    (w : World) (status count : ℕ) (before todo rest : List ℕ)
    → Reach w (between status count before (todo ++ rest))
    → Reach w (between (status + length todo) (count + sum todo) (before ++ todo) rest)
several_more w status count before [] rest r =
    let a : status + 0 ≡ status = omega arith in
    let b : count + 0 ≡ count = omega arith in rw (a, b, append-nil before) r
several_more w status count before (s ∷ todo) rest r =
    let a : status + 1 + length todo ≡ status + length (s ∷ todo) = omega arith in
    let b : count + s + sum todo ≡ count + sum (s ∷ todo) = omega arith in
    rw (sym a, sym b, sym (append_assoc before (s ∷ []) todo))
      (several_more w (status + 1) (count + s) (before ++ s ∷ []) todo rest
        (one_more w status count before s (todo ++ rest) r))

all_before :
    (ss : List ℕ) (s : ℕ) → Reach (begin (ss ++ s ∷ [])) (between (length ss) (sum ss) ss (s ∷ []))
unfolding begin
all_before ss s =
    let a : 0 + length ss ≡ length ss = omega arith in
    let b : 0 + sum ss ≡ sum ss = omega arith in
    rw (sym a, sym b) (several_more (begin (ss ++ s ∷ [])) 0 0 [] ss (s ∷ []) here)

-- When all threads but one have ended and the last has raised the status, the receiver leaves its loop
-- with a count that lacks the points of that thread; when `main` has then cleared the memory for the
-- next test, the thread adds its points there, before any thread of that test has entered.
pub late_points :
    (ss : List ℕ) (s : ℕ)
    → (w : World) × (u : World) × Reach (begin (ss ++ s ∷ [])) w
      × (w.status ≡ length (ss ++ s ∷ []))
      × (w.count ≡ sum ss)
      × Step (reset w) u
      × (u.status ≡ 0)
      × (u.count ≡ s)
unfolding enter_section leave_section reset
late_points ss s =
    let w = enter_section (between (length ss) (sum ss) ss (s ∷ [])) (ended ss) s [] in
    (
      w,
      leave_section (reset w) (ended ss) s [],
      later (all_before ss s) (enter (ended ss) s [] refl refl),
      sym (length-append ss (s ∷ [])),
      refl,
      leave (ended ss) s [] refl,
      refl,
      omega arith,
    )
