-- ===== src/IntegralMk/Program.antt =====
-- task4/integral-mk/src/mk_main.c: `getaddr` and `main`. What the system calls return, the sort of
-- the C library and the doubles are arguments; `counted` is the second word of the shared memory when
-- `Receive` reads it.
use sem.Common.{
  ℕ, zero, suc, ◌+◌, ◌-◌, ◌/◌, ◌%◌, Bool, Option, none, some, List, [], ◌∷◌, ◌++◌, Bytes, codes,
  decimal, map, length, get_elem?, ltb, ◌==◌, if◌then◌else◌, Run, ok, exit, fault, ◌>>=◌,
}
use sem.IntegralMk.Main.{points_num, threads_num}
use sem.IntegralMk.Points.{pos, ◌-ℤ◌, Floating, Interval, Comparison, double_cmp, receive}

abbrev pub billion : ℕ
billion = 1000000000

abbrev pub test_num : ℕ
test_num = 20

-- The results of ftok, shmget and shmat; `none` is -1.
pub record Attach : Type 0 where
  pub ftok : Option ℕ
  pub shmget : Option ℕ
  pub shmat : Option ℕ

abbrev pub found : Option ℕ → Run ℕ
found none = exit 1
found (some n) = ok n

unfoldable pub getaddr : Attach → Run ℕ
getaddr calls = do key ← found calls.ftok; shmid ← found calls.shmget; found calls.shmat

-- `struct timespec`
pub record Timespec : Type 0 where
  pub tv_sec : ℕ
  pub tv_nsec : ℕ

-- What the calls of one test give; `fork` is `none` for a failure.
pub record Trial : Type 0 where
  pub attach : Attach
  pub fork : Option ℕ
  pub counted : ℕ
  pub start : Timespec
  pub stop : Timespec

-- sprintf into an array of 100 bytes.
unfoldable pub print_line : Bytes → Run Bytes
print_line text = if ltb (length text) 100 then ok text else fault

-- What `main` has printed and what it has written to the file.
pub record Output (D : Type 0) : Type 0 where
  pub printed : List D
  pub written : Bytes

-- The first lines of the file.
abbrev pub heading : Bytes
heading =
    codes "Threads: "
    ++ (decimal threads_num ++ (codes "; #Points: " ++ (decimal points_num ++ codes ".\n")))

-- `TEST_NUM / 2 - !(TEST_NUM % 2)`
abbrev pub median_index : ℕ
median_index = test_num / 2 - (if test_num % 2 == 0 then 1 else 0)

module _ {D : Type 0} (fl : Floating D) where
  abbrev pub exec_time : Trial → D
  exec_time t =
      let sec = fl.of_int (t.stop.tv_sec -ℤ t.start.tv_sec) in
      let nsec = fl.of_int (t.stop.tv_nsec -ℤ t.start.tv_nsec) in
      fl.add sec (fl.div nsec (fl.of_int (pos billion)))

  abbrev pub unit_interval : Interval D
  unit_interval = record { a = fl.of_int (pos 0); b = fl.of_int (pos 1) }

  -- A test, with what `Receive` prints and the time; the child returns from main.
  unfoldable pub run_test : Trial → Run (D × D)
  run_test t = getaddr t.attach >>= λ shmptr. elim t.fork [
    | none ↦ exit 1
    | some zero ↦ exit 0
    | some (suc pid) ↦
        (print_line (codes "\treal=" ++ (fl.print5 (exec_time t) ++ codes "\n")) >>= λ res.
        ok (receive fl t.counted unit_interval, exec_time t))
  ]

  -- The loop over the tests from `i` on, `n` of them.
  unfoldable pub run_tests : ℕ → ℕ → (ℕ → Trial) → Run (List (D × D))
  run_tests zero i calls = ok []
  run_tests (suc n) i calls =
      run_test (calls i) >>= λ r. run_tests n (i + 1) calls >>= λ rs. ok (r ∷ rs)

  abbrev pub median_line : D → Bytes
  median_line time = codes "\n\tt_m=" ++ (fl.print5 time ++ codes "\n\n")

  abbrev pub time_at : List D → ℕ → Run D
  time_at times m = elim (get_elem? times m) [ none ↦ fault | some t ↦ ok t ]

  -- `main`, on whether fopen succeeds.
  unfoldable pub main :
      Bool → (ℕ → Trial) → ((D → D → Comparison) → List D → List D) → Run (Output D)
  main opened calls qsort = do
    s_num ← print_line heading
    fin ← (if opened then ok s_num else fault)
    rs ← run_tests test_num 0 calls
    med ← time_at (qsort (double_cmp fl) (map (λ r. r.1) rs)) median_index
    s_med ← print_line (median_line med)
    ok (record { printed = map (λ r. r.0) rs; written = s_num ++ s_med })
