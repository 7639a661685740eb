-- ===== src/ShellWrapper/Session.antt =====
-- What the shell holds after several command lines.
use sem.Common.{
  length-map, ℕ, ◌+◌, ◌-◌, ◌≡◌, refl, sym, some, List, [], ◌∷◌, Bytes, codes, cstr, tokens, map,
  take, All-append, length-append, ok, arith, All, length,
}
use sem.ShellWrapper.Parse.{
  Command, CommandLine, scan_cmd_line, scan_cmd, scan_cmds, cmds_blocks, free_cmds_mem, freed_cmds,
}
use sem.ShellWrapper.Heap.{scan_cmds-ok, given_back}
use sem.ShellWrapper.Pipeline.{
  End, terminal, read_end, write_end, Shell, Child, Calls, forked, run_cmd, main_loop,
}
use sem.ShellWrapper.Descriptors.{IsBelow}
use sem.ShellWrapper.Wiring.{pipeline, left_open, run_loop-pipeline}

abbrev pub commands : Bytes → List Command
commands line = map scan_cmd (tokens (codes "|") (cstr line))

weaken : (kept : List End) (q n : ℕ) → All (IsBelow q) kept → All (IsBelow (q + n)) kept
weaken [] q n h = tt
weaken (terminal ∷ kept) q n (hd, h) = (tt, weaken kept q n h)
weaken (read_end r ∷ kept) q n (hd, h) = (omega (arith, hd), weaken kept q n h)
weaken (write_end r ∷ kept) q n (hd, h) = (omega (arith, hd), weaken kept q n h)

left_open-IsBelow :
    (kept : List End) (p : ℕ) (cs : List Command)
    → All (IsBelow p) kept
    → All (IsBelow (p + length cs)) (left_open kept p cs)
left_open-IsBelow kept p [] h = weaken kept p 0 h
left_open-IsBelow kept p (c ∷ cs) h =
    All-append (IsBelow (p + length (c ∷ cs))) kept (read_end (p + length cs) ∷ [])
      (weaken kept p (length (c ∷ cs)) h) (omega arith, tt)

-- The lines that hold a command.
abbrev pub count : List Command → ℕ
count [] = 0
count (c ∷ cs) = 1

abbrev pub used : List (Bytes × (ℕ → Calls)) → ℕ
used [] = 0
used (l ∷ ls) = count (commands l.0) + used ls

left_open-length :
    (kept : List End) (p : ℕ) (cs : List Command)
    → length (left_open kept p cs) ≡ length kept + count cs
left_open-length kept p [] = omega arith
left_open-length kept p (c ∷ cs) = length-append kept (read_end (p + length cs) ∷ [])

-- A command line, parsed and run.
pub line-ok :
    (line : Bytes) (calls : ℕ → Calls) (errno : ℕ) (s : Shell) (live : ℕ)
    → All (IsBelow s.pipes) s.opened
    → ((j : ℕ) → calls j ≡ forked)
    → (c : CommandLine × ℕ) × (t : Shell) × (scan_cmds (some line) errno live ≡ ok c)
      × (run_cmd c.0 calls s c.1 ≡ ok (t, (pipeline s.opened s.pipes (commands line), live)))
      × (t.opened ≡ left_open s.opened s.pipes (commands line))
      × (t.pipes ≡ s.pipes + length (commands line))
unfolding scan_cmds scan_cmd_line run_cmd free_cmds_mem
line-ok line calls errno s live h f =
    let cs = commands line in
    let (t, e, o, n) = run_loop-pipeline s.opened s.pipes cs calls h f in
    let k : length (tokens (codes "|") (cstr line)) ≡ length cs =
      sym (length-map scan_cmd (tokens (codes "|") (cstr line))) in
    let m : live + 1 + cmds_blocks cs - (freed_cmds (take (length cs) cs) + 1) ≡ live =
      rw k at (given_back (tokens (codes "|") (cstr line)) live) in
    (
      (
        record { cmds = cs; size = length (tokens (codes "|") (cstr line)) },
        live + 1 + cmds_blocks cs,
      ),
      t,
      scan_cmds-ok line errno live,
      rw (k, run_cmd, e, free_cmds_mem, m) refl,
      o,
      n,
    )

main_loop-cons :
    (line : Bytes) (calls : ℕ → Calls) (lines : List (Bytes × (ℕ → Calls))) (errno : ℕ) (s : Shell)
    (live : ℕ) {c : CommandLine × ℕ} {r : Shell × (List Child × ℕ)}
    {t : Shell × (List (List Child) × ℕ)}
    → scan_cmds (some line) errno live ≡ ok c
    → run_cmd c.0 calls s c.1 ≡ ok r
    → main_loop lines errno r.0 r.1.1 ≡ ok t
    → main_loop ((line, calls) ∷ lines) errno s live ≡ ok (t.0, (r.1.0 ∷ t.1.0, t.1.1))
unfolding main_loop
main_loop-cons line calls lines errno s live a b e = rw (a, main_loop, b, e) refl

-- The shell whose pipes and forks succeed runs every line and comes back to its prompt with the
-- heap that it had, but with one more open descriptor for each line that held a command.
pub main_loop-leaks :
    (lines : List (Bytes × (ℕ → Calls))) (errno : ℕ) (s : Shell) (live : ℕ)
    → All (IsBelow s.pipes) s.opened
    → All (λ (l : Bytes × (ℕ → Calls)). (j : ℕ) → l.1 j ≡ forked) lines
    → (t : Shell × (List (List Child) × ℕ)) × (main_loop lines errno s live ≡ ok t)
      × (length t.0.opened ≡ length s.opened + used lines)
      × (t.1.1 ≡ live)
unfolding main_loop
main_loop-leaks [] errno s live h f = ((s, ([], live)), refl, omega arith, refl)
main_loop-leaks ((line, calls) ∷ lines) errno s live h (f, fs) =
    let cs = commands line in
    let (c, t, a, b, o, n) = line-ok line calls errno s live h f in
    let below : All (IsBelow t.pipes) t.opened =
      rw (o, n) (left_open-IsBelow s.opened s.pipes cs h) in
    let (u, e, l, m) = main_loop-leaks lines errno t live below fs in
    let k = left_open-length s.opened s.pipes cs in
    let k' : length t.opened ≡ length s.opened + count cs = rw o k in
    (
      (u.0, (pipeline s.opened s.pipes cs ∷ u.1.0, u.1.1)),
      main_loop-cons line calls lines errno s live a b e,
      omega (arith, k', l),
      m,
    )
