-- ===== src/ShellWrapper/Tests.antt =====
-- Small command lines.
use sem.Common.{
  ℕ, ◌+◌, ◌==◌, if◌then◌else◌, ◌≡◌, refl, some, List, [], ◌∷◌, Bytes, codes, ok, length, arith,
  tokens_from, map, suc,
}
use sem.ShellWrapper.Parse.{Command, scan_cmd, scan_cmds, scan_cmd_line, CommandLine, free_cmds_mem}
use sem.ShellWrapper.Pipeline.{
  terminal, read_end, Shell, Child, Calls, forked, pipe_failed, run_loop, main_loop,
}
use sem.ShellWrapper.Printed.{IsArgument, print_line, command_of, scan_cmds-print}
use sem.ShellWrapper.Wiring.{pipeline, left_open, run_loop-pipeline}
use sem.ShellWrapper.Session.{used, main_loop-leaks}
use sem.ShellWrapper.Outcomes.{Ends, IsServed, main_loop-Ends}

abbrev all_forked : ℕ → Calls
all_forked i = forked

abbrev ls : Command
ls = record { argv = codes "ls" ∷ codes "-l" ∷ []; argc = 2 }

abbrev wc : Command
wc = record { argv = codes "wc" ∷ []; argc = 1 }

two_commands :
    scan_cmds (some (codes "ls -l | wc\n")) 0 0 ≡ ok (record { cmds = ls ∷ wc ∷ []; size = 2 }, 6)
unfolding scan_cmds scan_cmd_line scan_cmd tokens_from
two_commands = refl

run_loop-pipeline_example :
    (s : Shell) × (run_loop 2 0
        (ls ∷ wc ∷ [])
        all_forked
        (record { opened = read_end 0 ∷ []; fd_in = terminal; pipes = 1 })
      ≡ ok (s, pipeline (read_end 0 ∷ []) 1 (ls ∷ wc ∷ [])))
    × (s.opened ≡ left_open (read_end 0 ∷ []) 1 (ls ∷ wc ∷ []))
    × (s.pipes ≡ 1 + 2)
run_loop-pipeline_example =
    run_loop-pipeline (read_end 0 ∷ []) 1 (ls ∷ wc ∷ []) all_forked (omega arith, tt) (λ j. refl)

abbrev lines : List (Bytes × (ℕ → Calls))
lines = (codes "ls | wc\n", all_forked) ∷ (codes "ls\n", all_forked) ∷ []

abbrev new_shell : Shell
new_shell = record { opened = []; fd_in = terminal; pipes = 0 }

main_loop-leaks_example :
    (t : Shell × (List (List Child) × ℕ)) × (main_loop lines 0 new_shell 0 ≡ ok t)
    × (length t.0.opened ≡ 0 + used lines)
    × (t.1.1 ≡ 0)
main_loop-leaks_example = main_loop-leaks lines 0 new_shell 0 tt ((λ j. refl), ((λ j. refl), tt))

two_lines_leak_two : used lines ≡ 2
unfolding tokens_from
two_lines_leak_two = refl

abbrev ls_words : List Bytes
ls_words = codes "ls" ∷ codes "-l" ∷ []

abbrev wc_words : List Bytes
wc_words = codes "wc" ∷ []

printed : print_line ls_words (wc_words ∷ []) ≡ codes " ls -l | wc \n"
printed = refl

ls-IsArgument : IsArgument (codes "ls")
ls-IsArgument =
    (((λ e. cc), (refl, (refl, tt))), (omega arith, (omega arith, tt)), (refl, (refl, tt)))

l-IsArgument : IsArgument (codes "-l")
l-IsArgument =
    (((λ e. cc), (refl, (refl, tt))), (omega arith, (omega arith, tt)), (refl, (refl, tt)))

wc-IsArgument : IsArgument (codes "wc")
wc-IsArgument =
    (((λ e. cc), (refl, (refl, tt))), (omega arith, (omega arith, tt)), (refl, (refl, tt)))

scan_cmds-print_example :
    (r : CommandLine × ℕ) × (scan_cmds (some (print_line ls_words (wc_words ∷ []))) 0 0 ≡ ok r)
    × (r.0.cmds ≡ map command_of (ls_words ∷ wc_words ∷ []))
    × (r.0.size ≡ suc 1)
    × (free_cmds_mem r.0 r.1 ≡ 0)
scan_cmds-print_example =
    scan_cmds-print ls_words (wc_words ∷ []) 0 0 (ls-IsArgument, (l-IsArgument, tt))
      ((wc-IsArgument, tt), tt)

-- The second pipe of the second line fails with EMFILE.
abbrev second_fails : ℕ → Calls
second_fails i = if i == 0 then forked else pipe_failed 24

abbrev failing_lines : List (Bytes × (ℕ → Calls))
failing_lines = (codes "ls\n", all_forked) ∷ (codes "ls | wc\n", second_fails) ∷ []

main_loop-Ends_example :
    Ends (IsServed failing_lines 0) (main_loop failing_lines 0 new_shell 0) (some 24)
unfolding tokens_from
main_loop-Ends_example = main_loop-Ends failing_lines 0 new_shell 0
