-- ===== src/ShellWrapper/Parse.antt =====
-- task1/shell-wrapper/src/sw_parse.c: a line of the terminal as commands with their arguments. What
-- fgets reads is an argument; the heap is the number of its live blocks.
use sem.Common.{
  ℕ, ◌+◌, ◌-◌, Option, none, some, List, [], ◌∷◌, Bytes, codes, cstr, tokens, length, map, take,
  Run, ok, exit, fault,
}

-- `Command`: the arguments in front of the NULL that ends `argv`.
pub record Command : Type 0 where
  pub argv : List Bytes
  pub argc : ℕ

pub record CommandLine : Type 0 where
  pub cmds : List Command
  pub size : ℕ

-- `scan_CmdLine`, with the value of errno when fgets fails.
unfoldable pub scan_cmd_line : Option Bytes → ℕ → Run (List Bytes)
scan_cmd_line none errno = exit errno
scan_cmd_line (some line) errno = ok (tokens (codes "|") (cstr line))

-- The loop of `scan_cmds` over the words of one command.
unfoldable pub scan_cmd : Bytes → Command
scan_cmd text = let argv = tokens (codes " \n") text in record { argv = argv; argc = length argv }

-- The blocks that a command owns: the copies of its words, and its array.
abbrev pub cmd_blocks : Command → ℕ
cmd_blocks c = length c.argv + 1

abbrev pub cmds_blocks : List Command → ℕ
cmds_blocks [] = 0
cmds_blocks (c ∷ cs) = cmd_blocks c + cmds_blocks cs

-- The blocks that `scan_CmdLine` hands over: the copies of the texts, and their array, which is NULL
-- while it is empty; and the calls of free on them, with `max_elem`.
abbrev pub buf_blocks : List Bytes → ℕ
buf_blocks [] = 0
buf_blocks (t ∷ ts) = length (t ∷ ts) + 1

abbrev pub freed_buf : ℕ → List Bytes → ℕ
freed_buf max_elem [] = max_elem
freed_buf max_elem (t ∷ ts) = max_elem + 1

-- `scan_cmds`, with the heap.
unfoldable pub scan_cmds : Option Bytes → ℕ → ℕ → Run (CommandLine × ℕ)
scan_cmds line errno live = elim (scan_cmd_line line errno) [
  | ok buf ↦
      (let cmds = map scan_cmd buf in
        ok (
          record { cmds = cmds; size = length buf },
          live + buf_blocks buf + (1 + cmds_blocks cmds) - freed_buf (length buf) buf,
        ))
  | exit n ↦ exit n
  | fault ↦ fault
]

-- `free_cmds_mem`: in each of the `size` rounds `argc` words and `argv`, and then `cmds`.
abbrev pub freed_cmds : List Command → ℕ
freed_cmds [] = 0
freed_cmds (c ∷ cs) = c.argc + 1 + freed_cmds cs

unfoldable pub free_cmds_mem : CommandLine → ℕ → ℕ
free_cmds_mem commands live = live - (freed_cmds (take commands.size commands.cmds) + 1)
