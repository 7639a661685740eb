-- ===== src/SysService/Maps.antt =====
-- task6/sys-service/src/ss_start.c: the lines of /proc/<pid>/maps, parsed, printed and freed, with
-- src/ss_error.c and the printing of src/ss_log.c. The heap is the number of the live blocks
-- that were made for tables and their words.
use sem.Common.{
  ℕ, ◌+◌, ◌-◌, Bool, true, false, Option, none, some, List, [], ◌∷◌, ◌++◌, Bytes, codes, take,
  length, tokens, decimal, ◌==◌, ltb, if◌then◌else◌, fault,
}
use sem.SysService.Log.{Logged, ◌>>=◌, ◌>>◌, return, create_log, msg_len}

-- `MapsLine`: a field is NULL or a copy that strdup made.
pub record MapsLine : Type 0 where
  pub address : Option Bytes
  pub perms : Option Bytes
  pub offset : Option Bytes
  pub device : Option Bytes
  pub inode : Option Bytes
  pub path : Option Bytes

abbrev pub no_fields : MapsLine
no_fields = record {
  address = none;
  perms = none;
  offset = none;
  device = none;
  inode = none;
  path = none;
}

-- One round of the loop of `parse_maps_line`, with its variable `i`.
unfoldable pub parse_field : ℕ → Bytes → MapsLine → Logged MapsLine
parse_field i p pml =
    if i == 1
    then return (record pml { address = some p })
    else if i == 2
    then return (record pml { perms = some p })
    else if i == 3
    then return (record pml { offset = some p })
    else if i == 4
    then return (record pml { device = some p })
    else if i == 5
    then return (record pml { inode = some p })
    else if i == 6
    then return (record pml { path = some p })
    else (create_log (codes "Parsing maps line: FAIL") [] >>= λ _. return pml)

unfoldable pub parse_fields : ℕ → List Bytes → MapsLine → Logged MapsLine
parse_fields i [] pml = return pml
parse_fields i (p ∷ ps) pml = parse_field i p pml >>= parse_fields (i + 1) ps

unfoldable pub parse_maps_line : Bytes → Logged MapsLine
parse_maps_line line = parse_fields 1 (tokens (codes " \n") line) no_fields

-- `strcat(msg, field); strcat(msg, " ")` where the field is there.
abbrev pub spaced : Option Bytes → Bytes
spaced none = []
spaced (some f) = f ++ codes " "

abbrev pub unspaced : Option Bytes → Bytes
unspaced none = []
unspaced (some f) = f

abbrev pub line_text : MapsLine → Bytes
line_text p =
    spaced p.address
    ++ (spaced p.perms
        ++ (spaced p.offset ++ (spaced p.device ++ (spaced p.inode ++ unspaced p.path))))

-- `print_parsed_maps_line`: the text is put together in an array of MSG_LEN bytes, and is the format
-- of the log entry.
unfoldable pub print_parsed_maps_line : MapsLine → Logged (Unit {0})
print_parsed_maps_line p log =
    if ltb (length (line_text p)) msg_len then create_log (line_text p) [] log else fault

-- `check_parse_maps_line_err` and `check_parse_maps_err`; `none` is the count -1.
unfoldable pub check_parse_maps_line_err : MapsLine → Bool
check_parse_maps_line_err p = true

unfoldable pub check_parse_maps_err : Option ℕ → Logged Bool
check_parse_maps_err none = create_log (codes "Parsing maps file: FAIL") [] >>= λ _. return false
check_parse_maps_err (some count) =
    create_log (codes "Parsing maps file is completed. There are %d lines\n") (decimal count ∷ [])
    >>= λ _. return true

-- The loop of `parse_maps` over the lines that getline gives, with the array and its `count`.
unfoldable pub parse_lines : List Bytes → List MapsLine → Logged (Option ℕ × List MapsLine)
parse_lines [] pml = return (some (length pml), pml)
parse_lines (line ∷ lines) pml = parse_maps_line line >>= λ p.
    if check_parse_maps_line_err p
    then (print_parsed_maps_line p >>= λ _. parse_lines lines (pml ++ p ∷ []))
    else (create_log (codes "Parsing of line #%d: FAIL") (decimal (length pml + 1) ∷ []) >>= λ _.
        return (none, pml ++ p ∷ []))

unfoldable pub parse_maps : List Bytes → Logged (Option ℕ × List MapsLine)
parse_maps lines = do create_log (codes "Parsing maps file started") []; parse_lines lines []

-- The heap blocks that a table owns: the copies that strdup makes of the words, and the array that
-- realloc makes, which is NULL while it is empty.
abbrev pub field_blocks : Option Bytes → ℕ
field_blocks none = 0
field_blocks (some f) = 1

abbrev pub line_blocks : MapsLine → ℕ
line_blocks p =
    field_blocks p.address
    + field_blocks p.perms
    + field_blocks p.offset
    + field_blocks p.device
    + field_blocks p.inode
    + field_blocks p.path

abbrev pub lines_blocks : List MapsLine → ℕ
lines_blocks [] = 0
lines_blocks (p ∷ ps) = line_blocks p + lines_blocks ps

abbrev pub array_blocks : List MapsLine → ℕ
array_blocks [] = 0
array_blocks (p ∷ ps) = 1

-- The calls of `free` in `free_PML`: one for each field of a line that is not NULL, and the last.
abbrev pub freed_field : Option Bytes → ℕ
freed_field none = 0
freed_field (some f) = 1

abbrev pub freed_line : MapsLine → ℕ
freed_line p =
    freed_field p.address
    + freed_field p.perms
    + freed_field p.offset
    + freed_field p.device
    + freed_field p.inode
    + freed_field p.path

abbrev pub freed_lines : List MapsLine → ℕ
freed_lines [] = 0
freed_lines (p ∷ ps) = freed_line p + freed_lines ps

abbrev pub freed_array : List MapsLine → ℕ
freed_array [] = 0
freed_array (p ∷ ps) = 1

-- `free_PML` on the first `num_lines` entries, with the heap.
unfoldable pub free_pml : List MapsLine → ℕ → ℕ → Logged ℕ
free_pml pml num_lines live = do
  create_log (codes "free(PML) is working..") []
  create_log (codes "SUCCEED") []
  return (live - (freed_lines (take num_lines pml) + freed_array pml))
