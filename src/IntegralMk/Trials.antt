-- ===== src/IntegralMk/Trials.antt =====
-- `main` of the integral where every call succeeds, and the time that it writes at the end.
use sem.Common.{
  length-map, ℕ, zero, suc, ◌+◌, ◌≤◌, ◌<◌, ◌≡◌, refl, ap, ◌∙◌, sym, Bool, true, false, some, List,
  [], ◌∷◌, ◌++◌, Bytes, codes, map, length, length-append, get_elem?, ltb, digits, ok, arith,
}
use sem.IntegralMk.Points.{Floating, Comparison, double_cmp, receive}
use sem.IntegralMk.Program.{
  getaddr, Trial, print_line, Output, heading, exec_time, unit_interval, run_test, run_tests,
  median_line, main, test_num, time_at,
}
use sem.IntegralMk.Median.{count, count-length, get_elem?-some, IsSorted, rank}

-- The tests from `i` on, `n` of them.
abbrev pub trials : ℕ → ℕ → (ℕ → Trial) → List Trial
trials zero i calls = []
trials (suc n) i calls = calls i ∷ trials n (i + 1) calls

trials-length : (n i : ℕ) (calls : ℕ → Trial) → length (trials n i calls) ≡ n
trials-length zero i calls = refl
trials-length (suc n) i calls = ap suc (trials-length n (i + 1) calls)

module _ {D : Type 0} (fl : Floating D) where
  abbrev pub estimate : Trial → D
  estimate t = receive fl t.counted (unit_interval fl)

  map-parts :
      (ts : List Trial)
      → (map (λ (r : D × D). r.0) (map (λ t. (estimate t, exec_time fl t)) ts) ≡ map estimate ts)
        × (map (λ (r : D × D). r.1) (map (λ t. (estimate t, exec_time fl t)) ts)
            ≡ map (exec_time fl) ts)
  map-parts [] = (refl, refl)
  map-parts (t ∷ ts) =
      let (a, b) = map-parts ts in
      (ap (λ (l : List D). estimate t ∷ l) a, ap (λ (l : List D). exec_time fl t ∷ l) b)

  abbrev pub times : (ℕ → Trial) → List D
  times calls = map (exec_time fl) (trials test_num 0 calls)

-- Every call of a test succeeds, in the parent of its fork.
pub record IsRun (t : Trial) : Type 0 where
  pub attached : (p : ℕ) × (getaddr t.attach ≡ ok p)
  pub parent : (pid : ℕ) × (t.fork ≡ some (suc pid))

print_line-ok : (text : Bytes) → length text < 100 → print_line text ≡ ok text
unfolding print_line
print_line-ok text h = let e : ltb (length text) 100 ≡ true = ground arith in rw e refl

heading-length : length heading < 100
unfolding digits
heading-length = omega arith

module _ {D : Type 0} (fl : Floating D) (short : (x : D) → length (fl.print5 x) < 80) where
  run_test-ok : (t : Trial) → IsRun t → run_test fl t ≡ ok (estimate fl t, exec_time fl t)
  unfolding run_test
  run_test-ok t h =
      let line = codes "\treal=" ++ (fl.print5 (exec_time fl t) ++ codes "\n") in
      let a = length-append (fl.print5 (exec_time fl t)) (codes "\n") in
      let b = print_line-ok line (omega (arith, a, short (exec_time fl t))) in
      rw (h.attached.1, h.parent.1, b) refl

  run_tests-ok :
      (n i : ℕ) (calls : ℕ → Trial)
      → ((j : ℕ) → IsRun (calls j))
      → run_tests fl n i calls ≡ ok (map (λ t. (estimate fl t, exec_time fl t)) (trials n i calls))
  unfolding run_tests
  run_tests-ok zero i calls h = refl
  run_tests-ok (suc n) i calls h =
      rw (run_test-ok (calls i) (h i), run_tests-ok n (i + 1) calls h) refl

  main-ok :
      (calls : ℕ → Trial) (qsort : (D → D → Comparison) → List D → List D) (med : D)
      → ((j : ℕ) → IsRun (calls j))
      → get_elem? (qsort (double_cmp fl) (times fl calls)) 9 ≡ some med
      → main fl true calls qsort
        ≡ ok (record {
          printed = map (estimate fl) (trials test_num 0 calls);
          written = heading ++ median_line fl med;
        })
  unfolding main
  main-ok calls qsort med runs e =
      let (a, b) = map-parts fl (trials test_num 0 calls) in
      let d = length-append (fl.print5 med) (codes "\n\n") in
      let f = print_line-ok (median_line fl med) (omega (arith, d, short med)) in
      rw
        (
          print_line-ok heading heading-length,
          run_tests-ok test_num 0 calls runs,
          b,
          time_at,
          e,
          f,
          a,
        )
        refl

  -- Where the file opens, every call succeeds and a printed number fits, `main` prints the estimate of
  -- each test and writes the heading and a median of the times: no more than nine of the twenty times
  -- are less than it and no more than ten are greater. qsort is asked to sort the times, and no number
  -- is less than itself.
  pub main-median :
      (calls : ℕ → Trial) (qsort : (D → D → Comparison) → List D → List D)
      → ((j : ℕ) → IsRun (calls j))
      → ((x : D) → fl.less x x ≡ false)
      → IsSorted fl (qsort (double_cmp fl) (times fl calls))
      → ((p : D → Bool)
          → count p (qsort (double_cmp fl) (times fl calls)) ≡ count p (times fl calls))
      → (out : Output D) × (med : D) × (main fl true calls qsort ≡ ok out)
        × (out.printed ≡ map (estimate fl) (trials test_num 0 calls))
        × (out.written ≡ heading ++ median_line fl med)
        × (count (λ t. fl.less t med) (times fl calls) ≤ 9)
        × (count (λ t. fl.less med t) (times fl calls) ≤ 10)
  unfolding main
  main-median calls qsort runs irr sorted same =
      let ts = times fl calls in
      let xs = qsort (double_cmp fl) ts in
      let n : length xs ≡ 20 =
        sym (count-length xs)
        ∙ same (λ x. true)
        ∙ count-length ts
        ∙ length-map (exec_time fl) (trials test_num 0 calls)
        ∙ trials-length test_num 0 calls in
      let (med, e) = get_elem?-some xs 9 (omega (arith, n)) in
      let (below, over) = rank fl xs 9 med sorted (irr med) e in
      (
        _,
        med,
        main-ok calls qsort med runs e,
        refl,
        refl,
        omega (arith, below, same (λ t. fl.less t med)),
        omega (arith, over, n, same (λ t. fl.less med t)),
      )
