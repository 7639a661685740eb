-- ===== src/SysService/Round.antt =====
-- What a round of the service logs: the reading of a file, the comparison and the swap.
use sem.Common.{
  ℕ, ◌+◌, ◌-◌, ◌≤◌, ◌≡◌, refl, ap, true, some, List, [], ◌∷◌, ◌++◌, Bytes, codes, decimal,
  decimal-length, length, take, take_all, arith, All, length-append,
}
use sem.SysService.Log.{Logged, return, create_log, vsprintf}
use sem.SysService.Balance.{freed-blocks}
use sem.SysService.Maps.{
  freed_lines, freed_array, MapsLine, check_parse_maps_err, parse_lines, parse_maps, lines_blocks,
  array_blocks, free_pml,
}
use sem.SysService.Diff.{pml_diff, Tables, pml_swap}
use sem.SysService.Reports.{IsPrintable, reports, pml_diff-reports}
use sem.SysService.Entries.{
  Says, Says-chain, Says-return, Says-plain, Says-printed, lines_entries, table, parse_lines-Says,
}
use sem.SysService.Service.{maps_path, open_maps_file, read_table, compare_tables}

abbrev pub int_max : ℕ
int_max = 2147483647

abbrev pub opening : ℕ → Bytes
opening tr_pid = codes "Opening \"" ++ (maps_path tr_pid ++ codes "\"..")

abbrev pub counted : ℕ → Bytes
counted n = codes "Parsing maps file is completed. There are " ++ (decimal n ++ codes " lines\n")

pub decimal-short : (n : ℕ) → n ≤ int_max → length (decimal n) ≤ 10
decimal-short n h = decimal-length 9 n (omega (arith, h))

pub opening-Says :
    (tr_pid : ℕ)
    → tr_pid ≤ int_max
    → Says (create_log (codes "Opening \"%s\"..") (maps_path tr_pid ∷ [])) tt (opening tr_pid ∷ [])
unfolding vsprintf
opening-Says tr_pid h =
    Says-printed (codes "Opening \"%s\"..") (maps_path tr_pid ∷ []) (opening tr_pid) refl (
      omega (
        arith,
        decimal-short tr_pid h,
        length-append (decimal tr_pid) (codes "/maps"),
        length-append (maps_path tr_pid) (codes "\".."),
      ))

counted-Says : (n : ℕ) → n ≤ int_max → Says (check_parse_maps_err (some n)) true (counted n ∷ [])
unfolding vsprintf check_parse_maps_err
counted-Says n h =
    Says-chain
      (create_log (codes "Parsing maps file is completed. There are %d lines\n") (decimal n ∷ []))
      (λ _. return true) (counted n ∷ []) []
      (Says-printed (codes "Parsing maps file is completed. There are %d lines\n") (decimal n ∷ [])
        (counted n) refl
        (omega (arith, decimal-short n h, length-append (decimal n) (codes " lines\n"))))
      (Says-return true)

-- A file whose table is printable and can be counted.
abbrev pub IsReadable : List Bytes → Type 0
IsReadable lines = (length (table lines) ≤ int_max) × All IsPrintable (table lines)

parse_maps-Says :
    (lines : List Bytes)
    → IsReadable lines
    → Says
        (parse_maps lines)
        (some (length (table lines)), table lines)
        (codes "Parsing maps file started" ∷ lines_entries lines)
unfolding parse_maps
parse_maps-Says lines (n, h) =
    Says-chain (create_log (codes "Parsing maps file started") []) (λ _. parse_lines lines [])
      (codes "Parsing maps file started" ∷ []) (lines_entries lines)
      (Says-plain (codes "Parsing maps file started") (omega arith) (omega arith))
      (parse_lines-Says lines [] h)

abbrev pub reading : ℕ → List Bytes → List Bytes → List Bytes
reading tr_pid announced lines =
    opening tr_pid
    ∷ codes "SUCCEED"
    ∷ (announced
        ++ (codes "Parsing maps file started"
            ∷ (lines_entries lines ++ counted (length (table lines)) ∷ [])))

open_maps_file-Says :
    (tr_pid : ℕ) (lines : List Bytes) (error : Bytes)
    → tr_pid ≤ int_max
    → Says
        (open_maps_file tr_pid (some lines) error)
        (some lines)
        (opening tr_pid ∷ codes "SUCCEED" ∷ [])
unfolding open_maps_file
open_maps_file-Says tr_pid lines error h =
    Says-chain (create_log (codes "Opening \"%s\"..") (maps_path tr_pid ∷ [])) _
      (opening tr_pid ∷ []) (codes "SUCCEED" ∷ []) (opening-Says tr_pid h)
      (Says-chain (create_log (codes "SUCCEED") []) (λ _. return (some lines))
        (codes "SUCCEED" ∷ []) [] (Says-plain (codes "SUCCEED") (omega arith) (omega arith))
        (Says-return (some lines)))

pub read_table-Says :
    (tr_pid : ℕ) (announce : Logged (Unit {0})) (announced : List Bytes) (lines : List Bytes)
    (error : Bytes)
    → tr_pid ≤ int_max
    → IsReadable lines
    → Says announce tt announced
    → Says
        (read_table tr_pid announce (some lines) error)
        (some (table lines))
        (reading tr_pid announced lines)
read_table-Says tr_pid announce announced lines error h r a =
    Says-chain (open_maps_file tr_pid (some lines) error) _ (opening tr_pid ∷ codes "SUCCEED" ∷ [])
      _ (open_maps_file-Says tr_pid lines error h)
      (Says-chain announce _ announced _ a (
        Says-chain (parse_maps lines) _ (codes "Parsing maps file started" ∷ lines_entries lines)
          (counted (length (table lines)) ∷ []) (parse_maps-Says lines r)
          (Says-chain (check_parse_maps_err (some (length (table lines)))) _
            (counted (length (table lines)) ∷ []) [] (counted-Says (length (table lines)) r.0)
            (Says-return (some (table lines))))))

-- The tables between two rounds.
abbrev pub at_rest : List MapsLine → Tables
at_rest cur = record {
  cur = cur;
  num_lns_cur = length cur;
  next = [];
  num_lns_next = 0;
  live = lines_blocks cur + array_blocks cur;
}

abbrev pub comparing : List MapsLine → List MapsLine → List Bytes
comparing cur next =
    codes "Diff is started.." ∷ (reports cur next ++ codes "Diff was completed SUCCESSFULLY\n" ∷ [])

abbrev pub swapping : List Bytes
swapping =
    codes "Swapping is started.."
    ∷ codes "free(PML) is working.."
    ∷ codes "SUCCEED"
    ∷ codes "Swap: SUCCEED\n"
    ∷ []

abbrev loaded : List MapsLine → List MapsLine → Tables
loaded cur next = record (at_rest cur) {
  next = next;
  num_lns_next = length next;
  live = lines_blocks cur + array_blocks cur + (lines_blocks next + array_blocks next);
}

freed :
    (cur next : List MapsLine)
    → (loaded cur next).live - (freed_lines (take (length cur) cur) + freed_array cur)
      ≡ lines_blocks next + array_blocks next
freed cur next =
    let all : freed_lines (take (length cur) cur) ≡ freed_lines cur =
      ap freed_lines (take_all (length cur) cur (omega arith)) in
    omega (arith, all, freed-blocks cur)

free_pml-Says :
    (cur next : List MapsLine)
    → Says
        (free_pml cur (length cur) (loaded cur next).live)
        (lines_blocks next + array_blocks next)
        (codes "free(PML) is working.." ∷ codes "SUCCEED" ∷ [])
unfolding free_pml
free_pml-Says cur next = rw (freed cur next) (
    Says-chain (create_log (codes "free(PML) is working..") []) _
      (codes "free(PML) is working.." ∷ []) (codes "SUCCEED" ∷ [])
      (Says-plain (codes "free(PML) is working..") (omega arith) (omega arith))
      (Says-chain (create_log (codes "SUCCEED") []) _ (codes "SUCCEED" ∷ []) []
        (Says-plain (codes "SUCCEED") (omega arith) (omega arith))
        (Says-return (lines_blocks next + array_blocks next))))

pml_swap-Says :
    (cur next : List MapsLine) → Says (pml_swap (loaded cur next)) (at_rest next) swapping
unfolding pml_swap
pml_swap-Says cur next =
    Says-chain (create_log (codes "Swapping is started..") []) _
      (codes "Swapping is started.." ∷ [])
      (codes "free(PML) is working.." ∷ codes "SUCCEED" ∷ codes "Swap: SUCCEED\n" ∷ [])
      (Says-plain (codes "Swapping is started..") (omega arith) (omega arith))
      (Says-chain (free_pml cur (length cur) (loaded cur next).live) _
        (codes "free(PML) is working.." ∷ codes "SUCCEED" ∷ []) (codes "Swap: SUCCEED\n" ∷ [])
        (free_pml-Says cur next)
        (Says-chain (create_log (codes "Swap: SUCCEED\n") []) _ (codes "Swap: SUCCEED\n" ∷ []) []
          (Says-plain (codes "Swap: SUCCEED\n") (omega arith) (omega arith))
          (Says-return (at_rest next))))

pub compare_tables-Says :
    (cur next : List MapsLine)
    → All IsPrintable cur
    → All IsPrintable next
    → Says
        (compare_tables (at_rest cur) (some next))
        (some (at_rest next))
        (comparing cur next ++ swapping)
unfolding compare_tables
compare_tables-Says cur next h k =
    Says-chain (pml_diff cur (length cur) next (length next)) _ (comparing cur next) swapping
      (λ log. pml_diff-reports cur next log h k)
      (Says-chain (pml_swap (loaded cur next)) _ swapping [] (pml_swap-Says cur next)
        (Says-return (some (at_rest next))))
