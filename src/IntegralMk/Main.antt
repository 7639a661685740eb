-- ===== src/IntegralMk/Main.antt =====
-- task4/integral-mk/src/mk_main.c: how the points are split among the threads, what a thread counts,
-- and the two words of shared memory. A point is known by the outcome of its test `y - f(x) < 0`.
use sem.Common.{
  ℕ, zero, suc, ◌+◌, ◌-◌, ◌*◌, ◌/◌, ◌≡◌, Bool, true, false, List, [], ◌∷◌, ◌++◌, ◌==◌,
  if◌then◌else◌,
}

abbrev pub points_num : ℕ
points_num = 100000000

abbrev pub threads_num : ℕ
threads_num = 16

-- The number of points of the thread `i`, in the loop of `Send`.
unfoldable pub points_of : ℕ → ℕ → ℕ → ℕ
points_of points threads i =
    let k = points / threads in if i + 1 == threads then points - i * k else k

-- The points of the threads from `i` on.
unfoldable pub total_from : ℕ → ℕ → ℕ → ℕ → ℕ
total_from points threads i zero = 0
total_from points threads i (suc n) =
    points_of points threads i + total_from points threads (i + 1) n

-- The loop of `GeneratePoints` over the tests of its points, with `s`, which is not initialised.
unfoldable pub generate_points : ℕ → List Bool → ℕ
generate_points s [] = s
generate_points s (below ∷ tests) = generate_points (if below then s + 1 else s) tests

-- The critical section of a thread: before it, between its two additions, and behind it.
pub data Stage : Type 0 where
  waiting adding finished : Stage

pub record Thread : Type 0 where
  pub stage : Stage
  pub s : ℕ

-- The shared memory, the threads behind their points, and who holds `pmutex`.
pub record World : Type 0 where
  pub status : ℕ
  pub count : ℕ
  pub locked : Bool
  pub threads : List Thread

abbrev pub with_stage : Stage → ℕ → Thread
with_stage stage s = record { stage = stage; s = s }

-- `pthread_mutex_lock` and `A->shm[0] += 1`, in the thread between the two lists.
unfoldable pub enter_section : World → List Thread → ℕ → List Thread → World
enter_section w before s after = record w {
  status = w.status + 1;
  locked = true;
  threads = before ++ with_stage adding s ∷ after;
}

-- `A->shm[1] += s` and `pthread_mutex_unlock`.
unfoldable pub leave_section : World → List Thread → ℕ → List Thread → World
leave_section w before s after = record w {
  count = w.count + s;
  locked = false;
  threads = before ++ with_stage finished s ∷ after;
}

pub data Step (w : World) : World → Type 0 where
  enter :
      (before : List Thread) (s : ℕ) (after : List Thread)
      → w.threads ≡ before ++ with_stage waiting s ∷ after
      → w.locked ≡ false
      → Step w (enter_section w before s after)
  leave :
      (before : List Thread) (s : ℕ) (after : List Thread)
      → w.threads ≡ before ++ with_stage adding s ∷ after
      → Step w (leave_section w before s after)

pub data Reach (w : World) : World → Type 0 where
  here : Reach w w
  later : {u v : World} → Reach w u → Step u v → Reach w v

abbrev pub starting : List ℕ → List Thread
starting [] = []
starting (s ∷ ss) = with_stage waiting s ∷ starting ss

-- The shared memory of `main` and the threads with what they have counted.
unfoldable pub begin : List ℕ → World
begin ss = record { status = 0; count = 0; locked = false; threads = starting ss }

-- What `main` writes in front of the next test, when threads of the last one may still run.
unfoldable pub reset : World → World
reset w = record w { status = 0; count = 0 }
