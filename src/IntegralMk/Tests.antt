-- ===== src/IntegralMk/Tests.antt =====
-- The constants of the source, and two threads.
use sem.Common.{
  ◌≢◌, ◌≡◌, refl, [], ◌∷◌, arith, ℕ, suc, ◌≤◌, ◌*◌, ◌%◌, ◌++◌, true, List, some, length, map,
  concat, ok,
}
use sem.IntegralMk.Main.{
  Stage, adding, Thread, points_of, World, here, later, enter, leave, begin, enter_section,
  leave_section, with_stage, waiting, finished, Reach, Step, reset, generate_points,
}
use sem.IntegralMk.Points.{double_cmp, Interval}
use sem.IntegralMk.Program.{Trial, Output, getaddr, main, heading, median_line, test_num}
use sem.IntegralMk.Median.{count}
use sem.IntegralMk.Trials.{IsRun, trials, estimate, times, main-median}
use sem.IntegralMk.Late.{late_points}
use sem.IntegralMk.Finish.{steps}
use sem.IntegralMk.Hits.{under, threads_finish}
use sem.IntegralMk.Instance.{
  naturals, shifted, naturals_short, naturals_irreflexive, insertion_sort, count-insertion_sort,
  insertion_sort-IsSorted,
}
use sem.IntegralMk.Counters.{sum}

abbrev first_in : World
first_in = enter_section (begin (3 ∷ 4 ∷ [])) [] 3 (with_stage waiting 4 ∷ [])

abbrev first_out : World
first_out = leave_section first_in [] 3 (with_stage waiting 4 ∷ [])

abbrev second_in : World
second_in = enter_section first_out (with_stage finished 3 ∷ []) 4 []

late_points_example :
    (w : World) × (u : World) × Reach (begin ((3 ∷ []) ++ 4 ∷ [])) w
    × (w.status ≡ 2)
    × (w.count ≡ sum (3 ∷ []))
    × Step (reset w) u
    × (u.status ≡ 0)
    × (u.count ≡ 4)
late_points_example = late_points (3 ∷ []) 4

-- A test that takes so many seconds, and in which all points are under the graph.
abbrev trial : ℕ → Trial
trial i = record {
  attach = record { ftok = some 1; shmget = some 2; shmat = some 3 };
  fork = some (suc 7);
  counted = 100000000;
  start = record { tv_sec = 0; tv_nsec = 0 };
  stop = record { tv_sec = i * 7 % 20; tv_nsec = 0 };
}

trial-IsRun : (j : ℕ) → IsRun (trial j)
unfolding getaddr
trial-IsRun j = record { attached = (3, refl); parent = (7, refl) }

main-median_example :
    (out : Output ℕ) × (med : ℕ) × (main naturals true trial insertion_sort ≡ ok out)
    × (out.printed ≡ map (estimate naturals) (trials test_num 0 trial))
    × (out.written ≡ heading ++ median_line naturals med)
    × (count (λ t. naturals.less t med) (times naturals trial) ≤ 9)
    × (count (λ t. naturals.less med t) (times naturals trial) ≤ 10)
main-median_example =
    main-median naturals naturals_short trial insertion_sort trial-IsRun naturals_irreflexive
      (insertion_sort-IsSorted (times naturals trial))
      (λ p. count-insertion_sort (double_cmp naturals) p (times naturals trial))

-- The interval from 0 to 1, and the draws of two threads; the first number of a draw is greater in two
-- of the three points.
abbrev unit : Interval ℕ
unit = record { a = 1000; b = 1001 }

abbrev draws : List (List (ℕ × ℕ))
draws = ((1, 0) ∷ []) ∷ ((0, 1) ∷ (1, 0) ∷ []) ∷ []

abbrev one_in : World
one_in = enter_section (begin (1 ∷ 1 ∷ [])) [] 1 (with_stage waiting 1 ∷ [])

abbrev one_out : World
one_out = leave_section one_in [] 1 (with_stage waiting 1 ∷ [])

abbrev two_in : World
two_in = enter_section one_out (with_stage finished 1 ∷ []) 1 []

abbrev two_out : World
two_out = leave_section two_in (with_stage finished 1 ∷ []) 1 []

two_out-Reach : Reach (begin (1 ∷ 1 ∷ [])) two_out
unfolding begin enter_section leave_section
two_out-Reach =
    later
      (later
        (later (later here (enter [] 1 (with_stage waiting 1 ∷ []) refl refl))
          (leave [] 1 (with_stage waiting 1 ∷ []) refl))
        (enter (with_stage finished 1 ∷ []) 1 [] refl refl))
      (leave (with_stage finished 1 ∷ []) 1 [] refl)

-- Both threads have finished, so none is at another stage.
both_finished :
    (st : Stage) (s : ℕ) (before after : List Thread)
    → st ≢ finished
    → with_stage finished 1 ∷ with_stage finished 1 ∷ [] ≢ before ++ with_stage st s ∷ after
both_finished st s [] after h = λ e. h (cc)
both_finished st s (t ∷ []) after h = λ e. h (cc)
both_finished st s (t ∷ u ∷ []) after h = λ e. cc
both_finished st s (t ∷ u ∷ v ∷ before) after h = λ e. cc

nothing_waits : (u : World) → ¬ Step two_out u
unfolding leave_section enter_section begin
nothing_waits u (enter before s after e free) = both_finished waiting s before after (λ q. cc) e
nothing_waits u (leave before s after e) = both_finished adding s before after (λ q. cc) e

threads_finish_example :
    (steps {v = begin (1 ∷ 1 ∷ [])} {w = two_out} two_out-Reach ≡ 2 * 2)
    × (two_out.status ≡ 2)
    × (two_out.count ≡ count (under shifted 1 unit) (concat draws))
    × (length (concat draws) ≡ 3)
    × (two_out.count ≤ 3)
unfolding begin enter_section leave_section generate_points points_of
threads_finish_example =
    threads_finish shifted 1 unit 3 draws {w = two_out} two_out-Reach (omega arith)
      (refl, (refl, tt)) nothing_waits
