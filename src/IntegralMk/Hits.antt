-- ===== src/IntegralMk/Hits.antt =====
-- The count that the threads arrive at together.
use sem.Common.{
  length-map, length-append, ◌*◌, ℕ, ◌<◌, ◌+◌, ◌≤◌, ◌≡◌, refl, ap, ◌∙◌, sym, Bool, true, false,
  List, [], ◌∷◌, map, concat, length, arith,
}
use sem.IntegralMk.Shares.{total_from-all}
use sem.IntegralMk.Main.{points_of, total_from, generate_points, World, Step, Reach, begin}
use sem.IntegralMk.Finish.{steps, threads_end}
use sem.IntegralMk.Points.{Floating, Interval, new_point, is_below}
use sem.IntegralMk.Counters.{sum, receive-total}
use sem.IntegralMk.Median.{bit, count, count-append, count-le}

one_round :
    (b : Bool) (s : ℕ) (bs : List Bool)
    → generate_points s (b ∷ bs) ≡ generate_points (s + bit b) bs
unfolding generate_points
one_round true s bs = refl
one_round false s bs =
    let e : s + 0 ≡ s = omega arith in ap (λ (x : ℕ). generate_points x bs) (sym e)

generate_points-count :
    {A : Type 0} (p : A → Bool) (s : ℕ) (xs : List A)
    → generate_points s (map p xs) ≡ s + count p xs
unfolding generate_points
generate_points-count p s [] = omega arith
generate_points-count p s (x ∷ xs) =
    one_round (p x) s (map p xs) ∙ omega (arith, generate_points-count p (s + bit (p x)) xs)

-- Each thread makes as many points as `Send` gives it, from the thread `i` of `n` on.
abbrev pub IsShared : ℕ → ℕ → ℕ → List (List (ℕ × ℕ)) → Type 0
IsShared points n i [] = Unit {0}
IsShared points n i (draws ∷ threads) =
    (length draws ≡ points_of points n i) × IsShared points n (i + 1) threads

length-shared :
    (points n i : ℕ) (threads : List (List (ℕ × ℕ)))
    → IsShared points n i threads
    → length (concat threads) ≡ total_from points n i (length threads)
unfolding total_from
length-shared points n i [] h = refl
length-shared points n i (draws ∷ threads) (e, h) =
    omega (arith, e, length-append draws (concat threads), length-shared points n (i + 1) threads h)

module _ {D : Type 0} (fl : Floating D) (rand_max : ℕ) (interval : Interval D) where
  -- The draws whose point is under the graph.
  abbrev pub under : ℕ × ℕ → Bool
  under draws = is_below fl (new_point fl rand_max interval draws)

  -- What a thread counts, whose `s` is zero at first.
  abbrev pub counted : List (ℕ × ℕ) → ℕ
  counted draws = generate_points 0 (map under draws)

  sum-counted :
      (threads : List (List (ℕ × ℕ))) → sum (map counted threads) ≡ count under (concat threads)
  sum-counted [] = refl
  sum-counted (draws ∷ threads) = omega (
    arith,
    generate_points-count under 0 draws,
    count-append under draws (concat threads),
    sum-counted threads,
  )

  -- Where the counters start at zero, in every order of the critical sections, the count at the end
  -- is the number of the points of all threads that are under the graph, and no more than the number
  -- of the points: once the status is the number of threads and the mutex is free.
  pub count-under :
      (threads : List (List (ℕ × ℕ))) (w : World)
      → Reach (begin (map counted threads)) w
      → w.status ≡ length threads
      → w.locked ≡ false
      → (w.count ≡ count under (concat threads)) × (w.count ≤ length (concat threads))
  count-under threads w r h free =
      let e : w.count ≡ sum (map counted threads) =
        (receive-total (map counted threads) w r (h ∙ sym (length-map counted threads))).1 free in
      let a = e ∙ sum-counted threads in (a, omega (arith, a, count-le under (concat threads)))

  -- Where `Send` has split a number of points among the threads, of which there is one at least, and
  -- the counters start at zero, in every order of the critical sections: once the status is the number
  -- of threads and the mutex is free, the count is the number of all points under the graph, and
  -- there are as many points as were to be made.
  pub count-shared :
      (points : ℕ) (threads : List (List (ℕ × ℕ))) (w : World)
      → 0 < length threads
      → IsShared points (length threads) 0 threads
      → Reach (begin (map counted threads)) w
      → w.status ≡ length threads
      → w.locked ≡ false
      → (w.count ≡ count under (concat threads))
        × (length (concat threads) ≡ points)
        × (w.count ≤ points)
  count-shared points threads w n h r s free =
      let (a, b) = count-under threads w r s free in
      let c =
        length-shared points (length threads) 0 threads h
        ∙ total_from-all points (length threads) n in
      (a, c, omega (arith, b, c))

  -- Where `Send` has split a number of points among the threads, of which there is one at least, and
  -- the counters start at zero: a run of the threads that can go no further has made two steps for each
  -- thread, and then the receiver leaves its loop and finds the number of all points under the graph,
  -- of as many points as were to be made.
  pub threads_finish :
      (points : ℕ) (threads : List (List (ℕ × ℕ))) {w : World}
      (r : Reach (begin (map counted threads)) w)
      → 0 < length threads
      → IsShared points (length threads) 0 threads
      → ((u : World) → ¬ Step w u)
      → (steps r ≡ 2 * length threads)
        × (w.status ≡ length threads)
        × (w.count ≡ count under (concat threads))
        × (length (concat threads) ≡ points)
        × (w.count ≤ points)
  threads_finish points threads {w} r n h final =
      let k = length-map counted threads in
      let (a, b, free) = threads_end (map counted threads) r final in
      let s : w.status ≡ length threads = b ∙ k in
      let (c, d, e) = count-shared points threads w n h r s free in
      (omega (arith, a, k), s, c, d, e)
