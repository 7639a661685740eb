-- ===== src/ShellWrapper/Outcomes.antt =====
-- How a session of the shell ends, whatever its calls of pipe and fork return.
use sem.Common.{
  ℕ, ◌+◌, ◌-◌, ◌≡◌, refl, ap, Option, none, some, List, [], ◌∷◌, ◌++◌, suc, Bytes, codes, cstr,
  tokens, length, take, map, Run, ok, exit, ◌>>=◌,
}
use sem.ShellWrapper.Parse.{Command, cmds_blocks, free_cmds_mem, freed_cmds, scan_cmd}
use sem.ShellWrapper.Heap.{scan_cmds-ok, given_back}
use sem.ShellWrapper.Pipeline.{
  terminal, Shell, Child, Calls, forked, pipe_failed, fork_failed, child_branch, parent_branch,
  run_loop, run_cmd, main_loop,
}
use sem.ShellWrapper.Session.{commands}

-- The calls of the rounds from `i` on, and of all rounds of a session.
abbrev pub calls_from : ℕ → List Command → (ℕ → Calls) → List Calls
calls_from i [] calls = []
calls_from i (c ∷ cs) calls = calls i ∷ calls_from (i + 1) cs calls

abbrev pub session_calls : List (Bytes × (ℕ → Calls)) → List Calls
session_calls [] = []
session_calls (l ∷ ls) = calls_from 0 (commands l.0) l.1 ++ session_calls ls

-- The errno of the first call that fails.
abbrev pub first_errno : List Calls → Option ℕ
first_errno [] = none
first_errno (forked ∷ cs) = first_errno cs
first_errno (pipe_failed n ∷ cs) = some n
first_errno (fork_failed n ∷ cs) = some n

-- The first of two, or the second where there is none.
abbrev or_else : Option ℕ → Option ℕ → Option ℕ
or_else none o = o
or_else (some n) o = some n

first_errno-append :
    (xs ys : List Calls) → first_errno (xs ++ ys) ≡ or_else (first_errno xs) (first_errno ys)
first_errno-append [] ys = refl
first_errno-append (forked ∷ xs) ys = first_errno-append xs ys
first_errno-append (pipe_failed n ∷ xs) ys = refl
first_errno-append (fork_failed n ∷ xs) ys = refl

-- A run that gives a result when no call fails, and otherwise ends with the errno of the first.
abbrev pub Ends : {A : Type 0} → (A → Type 0) → Run A → Option ℕ → Type 0
Ends P r none = (t : _) × (r ≡ ok t) × P t
Ends P r (some n) = r ≡ exit n

Ends-chain :
    {A B : Type 0} (P : A → Type 0) (Q : B → Type 0) (r : Run A) (f : A → Run B) (o u : Option ℕ)
    → Ends P r o
    → ((t : A) → P t → Ends Q (f t) u)
    → Ends Q (r >>= f) (or_else o u)
Ends-chain P Q r f none none (t, e, p) h = let (v, g, q) = h t p in (v, rw e g, q)
Ends-chain P Q r f none (some n) (t, e, p) h = rw e (h t p)
Ends-chain P Q r f (some n) u e h = rw e refl

Ends-map :
    {A B : Type 0} (P : A → Type 0) (Q : B → Type 0) (r : Run A) (f : A → B) (o : Option ℕ)
    → Ends P r o
    → ((t : A) → P t → Q (f t))
    → Ends Q (r >>= λ t. ok (f t)) o
Ends-map P Q r f none (t, e, p) h = (f t, rw e refl, h t p)
Ends-map P Q r f (some n) e h = rw e refl

-- A loop that has ended well has started a child for each command.
abbrev IsStarted : List Command → Shell × List Child → Type 0
IsStarted cs t = length t.1 ≡ length cs

run_loop-Ends-round :
    (size i : ℕ) (c : Command) (cs : List Command) (calls : ℕ → Calls) (s : Shell) (k : Calls)
    → calls i ≡ k
    → ((t : Shell)
        → Ends
            (IsStarted cs)
            (run_loop size (i + 1) cs calls t)
            (first_errno (calls_from (i + 1) cs calls)))
    → Ends
        (IsStarted (c ∷ cs))
        (run_loop size i (c ∷ cs) calls s)
        (first_errno (k ∷ calls_from (i + 1) cs calls))
unfolding run_loop
run_loop-Ends-round size i c cs calls s (pipe_failed n) e h = rw (run_loop, e) refl
run_loop-Ends-round size i c cs calls s (fork_failed n) e h = rw (run_loop, e) refl
run_loop-Ends-round size i c cs calls s forked e h =
    rw (run_loop, e)
      (Ends-map (IsStarted cs) (IsStarted (c ∷ cs))
        (run_loop size (i + 1) cs calls (parent_branch i s))
        (λ r. (r.0, child_branch size i c s ∷ r.1)) (first_errno (calls_from (i + 1) cs calls))
        (h (parent_branch i s)) (λ t e1. ap suc e1))

run_loop-Ends :
    (size i : ℕ) (cs : List Command) (calls : ℕ → Calls) (s : Shell)
    → Ends (IsStarted cs) (run_loop size i cs calls s) (first_errno (calls_from i cs calls))
unfolding run_loop
run_loop-Ends size i [] calls s = ((s, []), refl, refl)
run_loop-Ends size i (c ∷ cs) calls s =
    run_loop-Ends-round size i c cs calls s (calls i) refl
      (λ t. run_loop-Ends size (i + 1) cs calls t)

-- A command line: as many children as commands, and the heap as before.
abbrev IsRun : List Command → ℕ → Shell × (List Child × ℕ) → Type 0
IsRun cs live t = (length t.1.0 ≡ length cs) × (t.1.1 ≡ live)

run_cmd-Ends :
    (buf : List Bytes) (calls : ℕ → Calls) (s : Shell) (live : ℕ)
    → Ends
        (IsRun (map scan_cmd buf) live)
        (run_cmd
          (record { cmds = map scan_cmd buf; size = length buf })
          calls
          s
          (live + 1 + cmds_blocks (map scan_cmd buf)))
        (first_errno (calls_from 0 (map scan_cmd buf) calls))
unfolding run_cmd free_cmds_mem
run_cmd-Ends buf calls s live =
    let cs = map scan_cmd buf in
    Ends-map (IsStarted cs) (IsRun cs live)
      (run_loop (length buf) 0 cs calls (record s { fd_in = terminal }))
      (λ r. (r.0, (r.1, live + 1 + cmds_blocks cs - (freed_cmds (take (length buf) cs) + 1))))
      (first_errno (calls_from 0 cs calls))
      (run_loop-Ends (length buf) 0 cs calls (record s { fd_in = terminal }))
      (λ t e. (e, given_back buf live))

-- A session that has ended well: as many children in each line as commands, and the heap as before.
abbrev pub IsServed : List (Bytes × (ℕ → Calls)) → ℕ → Shell × (List (List Child) × ℕ) → Type 0
IsServed lines live t =
    (map length t.1.0 ≡ map (λ (l : Bytes × (ℕ → Calls)). length (commands l.0)) lines)
    × (t.1.1 ≡ live)

-- A session is back at its prompt, with the heap that it had and a child for each command of each
-- line, if none of its calls of pipe and fork fails; otherwise the first that fails ends the shell
-- with its errno.
pub main_loop-Ends :
    (lines : List (Bytes × (ℕ → Calls))) (errno : ℕ) (s : Shell) (live : ℕ)
    → Ends (IsServed lines live) (main_loop lines errno s live) (first_errno (session_calls lines))
unfolding main_loop
main_loop-Ends [] errno s live = ((s, ([], live)), refl, (refl, refl))
main_loop-Ends ((line, calls) ∷ lines) errno s live =
    let cs = commands line in
    let rest : (t : Shell)
        → Ends (IsServed lines live) (main_loop lines errno t live)
            (first_errno (session_calls lines)) =
      λ t. main_loop-Ends lines errno t live in
    rw
      (
        first_errno-append (calls_from 0 cs calls) (session_calls lines),
        main_loop,
        scan_cmds-ok line errno live,
      )
      (Ends-chain (IsRun cs live) (IsServed ((line, calls) ∷ lines) live)
        (run_cmd (record { cmds = cs; size = length (tokens (codes "|") (cstr line)) }) calls s
          (live + 1 + cmds_blocks cs))
        (λ r. main_loop lines errno r.0 r.1.1 >>= λ t. ok (t.0, (r.1.0 ∷ t.1.0, t.1.1)))
        (first_errno (calls_from 0 cs calls)) (first_errno (session_calls lines))
        (run_cmd-Ends (tokens (codes "|") (cstr line)) calls s live)
        (λ r (e, l).
          Ends-map (IsServed lines live) (IsServed ((line, calls) ∷ lines) live)
            (main_loop lines errno r.0 r.1.1) (λ t. (t.0, (r.1.0 ∷ t.1.0, t.1.1)))
            (first_errno (session_calls lines)) (rw l (rest r.0))
            (λ t (m, n). (rw (e, m) refl, n))))
