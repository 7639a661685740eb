-- ===== src/ShellWrapper/Wiring.antt =====
-- How the processes of a pipeline are joined, and which descriptors the shell keeps.
use sem.Common.{
  ℕ, ◌+◌, ◌-◌, ◌<◌, ◌≡◌, refl, ap, ◌∙◌, true, false, List, [], ◌∷◌, ◌++◌, ◌==◌, ltb, ok, arith, All,
  length,
}
use sem.ShellWrapper.Parse.{Command}
use sem.ShellWrapper.Pipeline.{
  End, terminal, read_end, write_end, Shell, Child, Calls, forked, child_branch, parent_branch,
  run_loop,
}
use sem.ShellWrapper.Descriptors.{
  IsBelow, above, parent_closes, child_closes, first_child, first_parent,
}

-- The children of a pipeline behind the first: each reads from the pipe of the one before it and
-- writes to a pipe of its own, the last to the terminal; `q` is the pipe of the one before.
abbrev pub joined : List End → ℕ → List Command → List Child
joined kept q [] = []
joined kept q (c ∷ []) =
    record {
      input = read_end q;
      output = terminal;
      others = kept ++ read_end q ∷ write_end (q + 1) ∷ [];
      command = c;
    }
    ∷ []
joined kept q (c ∷ d ∷ cs) =
    record {
      input = read_end q;
      output = write_end (q + 1);
      others = kept ++ read_end q ∷ write_end (q + 1) ∷ [];
      command = c;
    }
    ∷ joined kept (q + 1) (d ∷ cs)

-- The children of a whole pipeline, the first of which reads from the terminal; `p` is the first pipe.
abbrev pub pipeline : List End → ℕ → List Command → List Child
pipeline kept p [] = []
pipeline kept p (c ∷ []) =
    record { input = terminal; output = terminal; others = kept ++ write_end p ∷ []; command = c }
    ∷ []
pipeline kept p (c ∷ d ∷ cs) =
    record {
      input = terminal;
      output = write_end p;
      others = kept ++ write_end p ∷ [];
      command = c;
    }
    ∷ joined kept p (d ∷ cs)

abbrev pub between : List End → ℕ → Shell
between kept q = record { opened = kept ++ read_end q ∷ []; fd_in = read_end q; pipes = q + 1 }

parent_branch-between :
    (kept : List End) (q i : ℕ)
    → All (IsBelow q) kept
    → 0 < i
    → parent_branch i (between kept q) ≡ between kept (q + 1)
unfolding parent_branch
parent_branch-between kept q i h l =
    let t : ltb 0 i ≡ true = ground arith in rw (t, parent_closes kept q h) refl

child_branch-last :
    (kept : List End) (q size i : ℕ) (c : Command)
    → All (IsBelow q) kept
    → 0 < i
    → size ≡ i + 1
    → child_branch size i c (between kept q) ≡ record {
      input = read_end q;
      output = terminal;
      others = kept ++ read_end q ∷ write_end (q + 1) ∷ [];
      command = c;
    }
unfolding child_branch
child_branch-last kept q size i c h l e =
    let t : ltb 0 i ≡ true = ground arith in
    let u : (i == size - 1) ≡ true = ground arith in rw (t, u, child_closes kept q h) refl

child_branch-inner :
    (kept : List End) (q size i : ℕ) (c : Command)
    → All (IsBelow q) kept
    → 0 < i
    → i + 1 < size
    → child_branch size i c (between kept q) ≡ record {
      input = read_end q;
      output = write_end (q + 1);
      others = kept ++ read_end q ∷ write_end (q + 1) ∷ [];
      command = c;
    }
unfolding child_branch
child_branch-inner kept q size i c h l e =
    let t : ltb 0 i ≡ true = ground arith in
    let u : (i == size - 1) ≡ false = ground arith in rw (t, u, child_closes kept q h) refl

run_loop-cons :
    (size i : ℕ) (c : Command) (cs : List Command) (calls : ℕ → Calls) (s : Shell)
    {r : Shell × List Child}
    → calls i ≡ forked
    → run_loop size (i + 1) cs calls (parent_branch i s) ≡ ok r
    → run_loop size i (c ∷ cs) calls s ≡ ok (r.0, child_branch size i c s ∷ r.1)
unfolding run_loop
run_loop-cons size i c cs calls s f e = rw (f, run_loop, e) refl

-- From the second round on: the rounds leave the pipe of the last of them.
run_loop-joined :
    (kept : List End) (q size i : ℕ) (cs : List Command) (calls : ℕ → Calls)
    → All (IsBelow q) kept
    → 0 < i
    → size ≡ i + length cs
    → ((j : ℕ) → calls j ≡ forked)
    → run_loop size i cs calls (between kept q)
      ≡ ok (between kept (q + length cs), joined kept q cs)
unfolding run_loop
run_loop-joined kept q size i [] calls h l e f = let n : q + 0 ≡ q = omega arith in rw n refl
run_loop-joined kept q size i (c ∷ []) calls h l e f =
    run_loop-cons size i c [] calls (between kept q) (f i)
      (ap (run_loop size (i + 1) [] calls) (parent_branch-between kept q i h l))
    ∙ ap (λ (x : Child). ok (between kept (q + 1), x ∷ []))
        (child_branch-last kept q size i c h l (omega (arith, e)))
run_loop-joined kept q size i (c ∷ d ∷ cs) calls h l e f =
    let n : q + 1 + length (d ∷ cs) ≡ q + length (c ∷ d ∷ cs) = omega arith in
    run_loop-cons size i c (d ∷ cs) calls (between kept q) (f i) (
      ap (run_loop size (i + 1) (d ∷ cs) calls) (parent_branch-between kept q i h l)
      ∙ run_loop-joined kept (q + 1) size (i + 1) (d ∷ cs) calls (above kept q h) (omega arith)
          (omega (arith, e)) f)
    ∙ rw (n, child_branch-inner kept q size i c h l (omega (arith, e))) refl

-- The descriptors that a command line leaves in the shell.
abbrev pub left_open : List End → ℕ → List Command → List End
left_open kept p [] = kept
left_open kept p (c ∷ cs) = kept ++ read_end (p + length cs) ∷ []

first_round :
    (kept : List End) (p : ℕ)
    → All (IsBelow p) kept
    → parent_branch 0 (record { opened = kept; fd_in = terminal; pipes = p }) ≡ between kept p
unfolding parent_branch
first_round kept p h = rw (first_parent kept p h) refl

abbrev starting : List End → ℕ → Shell
starting kept p = record { opened = kept; fd_in = terminal; pipes = p }

child_branch-first :
    (kept : List End) (p : ℕ) (c : Command) (cs : List Command)
    → All (IsBelow p) kept
    → child_branch (length (c ∷ cs)) 0 c (starting kept p) ∷ joined kept p cs
      ≡ pipeline kept p (c ∷ cs)
unfolding child_branch
child_branch-first kept p c [] h = rw (first_child kept p h) refl
child_branch-first kept p c (d ∷ cs) h =
    let u : (0 == length (c ∷ d ∷ cs) - 1) ≡ false = ground arith in
    rw (u, first_child kept p h) refl

nothing :
    (kept : List End) (p : ℕ) (calls : ℕ → Calls)
    → run_loop 0 0 [] calls (starting kept p) ≡ ok (starting kept p, [])
unfolding run_loop
nothing kept p calls = refl

-- When every pipe and fork succeeds, the loop of `run_cmd` starts the pipeline: the first command
-- reads from the terminal and the last writes to it, each other end is the pipe between two
-- neighbours, and no child but the writer of a pipe holds its write end. The shell keeps what it
-- held before and one more descriptor, the read end of the last pipe, if there is a command.
pub run_loop-pipeline :
    (kept : List End) (p : ℕ) (cs : List Command) (calls : ℕ → Calls)
    → All (IsBelow p) kept
    → ((j : ℕ) → calls j ≡ forked)
    → (s : Shell) × (run_loop
          (length cs)
          0
          cs
          calls
          (record { opened = kept; fd_in = terminal; pipes = p })
        ≡ ok (s, pipeline kept p cs))
      × (s.opened ≡ left_open kept p cs)
      × (s.pipes ≡ p + length cs)
run_loop-pipeline kept p [] calls h f = (starting kept p, nothing kept p calls, refl, omega arith)
run_loop-pipeline kept p (c ∷ cs) calls h f =
    let rest : run_loop (length (c ∷ cs)) 1 cs calls (between kept p)
        ≡ ok (between kept (p + length cs), joined kept p cs) =
      run_loop-joined kept p (length (c ∷ cs)) 1 cs calls h (omega arith) (omega arith) f in
    (
      between kept (p + length cs),
      run_loop-cons (length (c ∷ cs)) 0 c cs calls (starting kept p) (f 0)
            (ap (run_loop (length (c ∷ cs)) 1 cs calls) (first_round kept p h) ∙ rest)
          ∙ ap (λ (x : List Child). ok (between kept (p + length cs), x))
              (child_branch-first kept p c cs h),
      refl,
      omega arith,
    )
