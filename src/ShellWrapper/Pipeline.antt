-- ===== src/ShellWrapper/Pipeline.antt =====
-- task1/shell-wrapper/src/sw_run.c: the processes of a command line and the descriptors that each of
-- them holds, and the loop of src/sw_main.c.
use sem.Common.{
  ℕ, ◌+◌, ◌-◌, Bool, true, false, some, List, [], ◌∷◌, ◌++◌, Bytes, ◌==◌, ltb, if◌then◌else◌, Run,
  ok, exit, ◌>>=◌,
}
use sem.ShellWrapper.Parse.{Command, CommandLine, scan_cmds, free_cmds_mem}

-- What a descriptor refers to: the terminal, or an end of a pipe, which has a number.
pub data End : Type 0 where
  terminal : End
  read_end write_end : ℕ → End

abbrev pub same_end : End → End → Bool
same_end terminal terminal = true
same_end (read_end p) (read_end q) = p == q
same_end (write_end p) (write_end q) = p == q
same_end terminal (read_end q) = false
same_end terminal (write_end q) = false
same_end (read_end p) terminal = false
same_end (read_end p) (write_end q) = false
same_end (write_end p) terminal = false
same_end (write_end p) (read_end q) = false

-- `close` of a descriptor, among those above the standard ones.
unfoldable pub close : End → List End → List End
close e [] = []
close e (d ∷ ds) = let rest = close e ds in if same_end e d then ds else d ∷ rest

-- The shell: its descriptors above the standard ones, `fd_in`, and the number of pipes made.
pub record Shell : Type 0 where
  pub opened : List End
  pub fd_in : End
  pub pipes : ℕ

-- A child at its execvp: what its descriptors 0 and 1 refer to, the other descriptors, and the
-- command.
pub record Child : Type 0 where
  pub input : End
  pub output : End
  pub others : List End
  pub command : Command

-- What pipe and fork return in a round; a failure has the value of errno.
pub data Calls : Type 0 where
  forked : Calls
  pipe_failed fork_failed : ℕ → Calls

-- The branch of the child, in round `i`, behind the call of pipe.
unfoldable pub child_branch : ℕ → ℕ → Command → Shell → Child
child_branch size i command s = record {
  input = if ltb 0 i then s.fd_in else terminal;
  output = if i == size - 1 then terminal else write_end s.pipes;
  others = close (read_end s.pipes) (s.opened ++ read_end s.pipes ∷ write_end s.pipes ∷ []);
  command = command;
}

-- The branch of the parent, in round `i`, behind the call of pipe.
unfoldable pub parent_branch : ℕ → Shell → Shell
parent_branch i s =
    let opened =
      close (write_end s.pipes) (s.opened ++ read_end s.pipes ∷ write_end s.pipes ∷ []) in
    record {
      opened = if ltb 0 i then close s.fd_in opened else opened;
      fd_in = read_end s.pipes;
      pipes = s.pipes + 1;
    }

-- The loop of `run_cmd` from round `i` on, with the children that it starts.
unfoldable pub run_loop : ℕ → ℕ → List Command → (ℕ → Calls) → Shell → Run (Shell × List Child)
run_loop size i [] calls s = ok (s, [])
run_loop size i (c ∷ cs) calls s = elim (calls i) [
  | pipe_failed errno ↦ exit errno
  | fork_failed errno ↦ exit errno
  | forked ↦ run_loop size (i + 1) cs calls (parent_branch i s) >>= λ r.
      ok (r.0, child_branch size i c s ∷ r.1)
]

-- `run_cmd`, with the heap.
unfoldable pub run_cmd : CommandLine → (ℕ → Calls) → Shell → ℕ → Run (Shell × (List Child × ℕ))
run_cmd commands calls s live = do
  r ← run_loop commands.size 0 commands.cmds calls (record s { fd_in = terminal })
  ok (r.0, (r.1, free_cmds_mem commands live))

-- The loop of `main` over the lines that fgets reads, each with what its calls return; a list that is
-- used up leaves the shell at its prompt.
unfoldable pub main_loop :
    List (Bytes × (ℕ → Calls)) → ℕ → Shell → ℕ → Run (Shell × (List (List Child) × ℕ))
main_loop [] errno s live = ok (s, ([], live))
main_loop ((line, calls) ∷ lines) errno s live = do
  c ← scan_cmds (some line) errno live
  r ← run_cmd c.0 calls s c.1
  t ← main_loop lines errno r.0 r.1.1
  ok (t.0, (r.1.0 ∷ t.1.0, t.1.1))
