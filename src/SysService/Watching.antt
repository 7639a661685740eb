-- ===== src/SysService/Watching.antt =====
-- The whole log of the service.
use sem.Common.{
  ℕ, ◌≤◌, ◌≡◌, Option, some, List, [], ◌∷◌, ◌++◌, append_assoc, append-nil, Bytes, codes, decimal,
  map, ok, arith, All,
}
use sem.SysService.Log.{return, create_log, vsprintf}
use sem.SysService.Maps.{MapsLine}
use sem.SysService.Diff.{Tables}
use sem.SysService.Entries.{Says, Says-chain, Says-return, Says-plain, Says-printed, table}
use sem.SysService.Service.{read_table, service_round, service_loop, announce_start, start_service}
use sem.SysService.Round.{
  int_max, decimal-short, IsReadable, reading, read_table-Says, at_rest, comparing, swapping,
  compare_tables-Says,
}

-- What a session logs behind its start, and the last file that it reads.
abbrev pub rounds : ℕ → List Bytes → List (List Bytes) → List Bytes
rounds tr_pid lines [] = []
rounds tr_pid lines (file ∷ files) =
    reading tr_pid [] file
    ++ (comparing (table lines) (table file) ++ swapping)
    ++ rounds tr_pid file files

abbrev pub last_of : List Bytes → List (List Bytes) → List Bytes
last_of lines [] = lines
last_of lines (file ∷ files) = last_of file files

service_round-Says :
    (tr_pid : ℕ) (lines file : List Bytes) (error : Bytes)
    → tr_pid ≤ int_max
    → IsReadable lines
    → IsReadable file
    → Says
        (service_round tr_pid (some file) error (at_rest (table lines)))
        (some (at_rest (table file)))
        (reading tr_pid [] file ++ (comparing (table lines) (table file) ++ swapping))
unfolding service_round
service_round-Says tr_pid lines file error h r r' =
    Says-chain (read_table tr_pid (return tt) (some file) error) _ (reading tr_pid [] file)
      (comparing (table lines) (table file) ++ swapping)
      (read_table-Says tr_pid (return tt) [] file error h r' (Says-return tt))
      (compare_tables-Says (table lines) (table file) r.1 r'.1)

-- The loop goes through readable files to what it finds behind them.
pub service_loop-Says :
    (tr_pid : ℕ) (lines : List Bytes) (files : List (List Bytes))
    (later : List (Option (List Bytes))) (error : Bytes) (o : Option Tables) (es : List Bytes)
    → tr_pid ≤ int_max
    → IsReadable lines
    → All IsReadable files
    → Says (service_loop tr_pid later error (some (at_rest (table (last_of lines files))))) o es
    → Says
        (service_loop tr_pid (map some files ++ later) error (some (at_rest (table lines))))
        o
        (rounds tr_pid lines files ++ es)
unfolding service_loop
service_loop-Says tr_pid lines [] later error o es h r rs k = k
service_loop-Says tr_pid lines (file ∷ files) later error o es h r (r', rs) k =
    let here = reading tr_pid [] file ++ (comparing (table lines) (table file) ++ swapping) in
    let rest : Says
        (service_loop tr_pid (map some files ++ later) error (some (at_rest (table file)))) o
        (rounds tr_pid file files ++ es) =
      λ log. service_loop-Says tr_pid file files later error o es h r' rs k log in
    λ log. rw (append_assoc here (rounds tr_pid file files) es) (
      Says-chain (service_round tr_pid (some file) error (at_rest (table lines)))
        (service_loop tr_pid (map some files ++ later) error) here (rounds tr_pid file files ++ es)
        (service_round-Says tr_pid lines file error h r r') rest log)

abbrev pub tracking : ℕ → Bytes
tracking tr_pid = codes "Tracking pid: " ++ decimal tr_pid

abbrev pub started : Bytes
started = codes "SUCCEED: Service started!\n"

-- The log of the start with the first file, and that of a session.
abbrev pub prologue : ℕ → List Bytes → List Bytes
prologue tr_pid first =
    codes "Starting service...\n"
    ∷ tracking tr_pid
    ∷ (reading tr_pid (codes "Parsing maps file...\n" ∷ []) first ++ started ∷ [])

abbrev pub session : ℕ → List Bytes → List (List Bytes) → List Bytes
session tr_pid first files = prologue tr_pid first ++ rounds tr_pid first files

announce_start-Says :
    (cur : List MapsLine) → Says (announce_start (some cur)) (some (at_rest cur)) (started ∷ [])
unfolding announce_start
announce_start-Says cur =
    Says-chain (create_log started []) _ (started ∷ []) []
      (Says-plain started (omega arith) (omega arith)) (Says-return (some (at_rest cur)))

tracking-Says :
    (tr_pid : ℕ)
    → tr_pid ≤ int_max
    → Says (create_log (codes "Tracking pid: %d") (decimal tr_pid ∷ [])) tt (tracking tr_pid ∷ [])
unfolding vsprintf
tracking-Says tr_pid h =
    Says-printed (codes "Tracking pid: %d") (decimal tr_pid ∷ []) (tracking tr_pid) (rw append-nil)
      (omega (arith, decimal-short tr_pid h))

-- A service that has a readable first file goes on with its loop.
pub start_service-Says :
    (tr_pid : ℕ) (first : List Bytes) (later : List (Option (List Bytes))) (error : Bytes)
    (o : Option Tables) (es : List Bytes)
    → tr_pid ≤ int_max
    → IsReadable first
    → Says (service_loop tr_pid later error (some (at_rest (table first)))) o es
    → Says (start_service tr_pid (some first) later error) o (prologue tr_pid first ++ es)
unfolding start_service
start_service-Says tr_pid first later error o es h r k =
    let announced = codes "Parsing maps file...\n" ∷ [] in
    let begin = reading tr_pid announced first ++ started ∷ [] in
    Says-chain (create_log (codes "Starting service...\n") []) _
      (codes "Starting service...\n" ∷ []) (tracking tr_pid ∷ (begin ++ es))
      (Says-plain (codes "Starting service...\n") (omega arith) (omega arith))
      (Says-chain (create_log (codes "Tracking pid: %d") (decimal tr_pid ∷ [])) _
        (tracking tr_pid ∷ []) (begin ++ es) (tracking-Says tr_pid h)
        (Says-chain _ (service_loop tr_pid later error) begin es
          (Says-chain
            (read_table tr_pid (create_log (codes "Parsing maps file...\n") []) (some first) error)
            announce_start (reading tr_pid announced first) (started ∷ [])
            (read_table-Says tr_pid (create_log (codes "Parsing maps file...\n") []) announced first
              error h r (Says-plain (codes "Parsing maps file...\n") (omega arith) (omega arith)))
            (announce_start-Says (table first)))
          k))

-- A service whose process has an int for its number, and whose files can always be opened and hold
-- printable lines, comes back to its sleep each time, with the table of the last file and the heap
-- that this table owns. Its log is that of the start and then, for each file, that of its reading,
-- the reports on the file before and this file, between the two messages of `PML_diff`, and the
-- messages of the swap.
pub start_service-session :
    (tr_pid : ℕ) (first : List Bytes) (files : List (List Bytes)) (error : Bytes) (log : List Bytes)
    → tr_pid ≤ int_max
    → IsReadable first
    → All IsReadable files
    → start_service tr_pid (some first) (map some files) error log
      ≡ ok (some (at_rest (table (last_of first files))), log ++ session tr_pid first files)
unfolding service_loop
start_service-session tr_pid first files error log h r rs =
    let end = some (at_rest (table (last_of first files))) in
    let k : Says (service_loop tr_pid (map some files ++ []) error (some (at_rest (table first))))
        end (rounds tr_pid first files ++ []) =
      service_loop-Says tr_pid first files [] error end [] h r rs
        (Says-return (some (at_rest (table (last_of first files))))) in
    let k' : Says (service_loop tr_pid (map some files) error (some (at_rest (table first)))) end
        (rounds tr_pid first files) =
      λ l. rw (append-nil (map some files), append-nil (rounds tr_pid first files)) at k l in
    start_service-Says tr_pid first (map some files) error end (rounds tr_pid first files) h r k'
      log
