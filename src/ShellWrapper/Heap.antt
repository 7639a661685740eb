-- ===== src/ShellWrapper/Heap.antt =====
-- What parsing a line allocates and freeing it gives back.
use sem.Common.{
  ℕ, ◌+◌, ◌-◌, ◌≡◌, refl, some, List, [], ◌∷◌, Bytes, codes, cstr, tokens, length, map, take, ok,
  arith,
}
use sem.ShellWrapper.Parse.{
  scan_cmd_line, scan_cmd, cmd_blocks, cmds_blocks, buf_blocks, freed_buf, scan_cmds, freed_cmds,
}

-- The texts of a line.
abbrev pub texts : Bytes → List Bytes
texts line = tokens (codes "|") (cstr line)

freed_buf-blocks : (buf : List Bytes) → freed_buf (length buf) buf ≡ buf_blocks buf
freed_buf-blocks [] = refl
freed_buf-blocks (t ∷ ts) = refl

freed_one : (text : Bytes) → (scan_cmd text).argc + 1 ≡ cmd_blocks (scan_cmd text)
unfolding scan_cmd
freed_one text = refl

pub freed_cmds-blocks :
    (buf : List Bytes)
    → freed_cmds (take (length buf) (map scan_cmd buf)) ≡ cmds_blocks (map scan_cmd buf)
freed_cmds-blocks [] = refl
freed_cmds-blocks (t ∷ ts) = omega (arith, freed_one t, freed_cmds-blocks ts)

pub scan_cmds-ok :
    (line : Bytes) (errno live : ℕ)
    → scan_cmds (some line) errno live
      ≡ ok (
        record { cmds = map scan_cmd (texts line); size = length (texts line) },
        live + 1 + cmds_blocks (map scan_cmd (texts line)),
      )
unfolding scan_cmds scan_cmd_line
scan_cmds-ok line errno live =
    let buf = texts line in
    let e : live
          + buf_blocks buf
          + (1 + cmds_blocks (map scan_cmd buf))
          - freed_buf (length buf) buf
        ≡ live + 1 + cmds_blocks (map scan_cmd buf) =
      omega (arith, freed_buf-blocks buf) in
    rw e refl

-- The heap behind the freeing.
pub given_back :
    (buf : List Bytes) (live : ℕ)
    → live
        + 1
        + cmds_blocks (map scan_cmd buf)
        - (freed_cmds (take (length buf) (map scan_cmd buf)) + 1)
      ≡ live
given_back buf live = omega (arith, freed_cmds-blocks buf)
