-- ===== src/SysService/Service.antt =====
-- task6/sys-service/src/ss_start.c: `open_maps_file` and `start_service`. What getline finds in the
-- maps file is an argument, a list of lines for each time that the file is opened; `none` is a file
-- that cannot be opened.
use sem.Common.{
  ℕ, ◌+◌, true, false, Option, none, some, List, [], ◌∷◌, ◌++◌, Bytes, codes, decimal, length,
}
use sem.SysService.Log.{Logged, ◌>>=◌, return, create_log}
use sem.SysService.Maps.{MapsLine, parse_maps, check_parse_maps_err, lines_blocks, array_blocks}
use sem.SysService.Diff.{Tables, pml_diff, pml_swap}

abbrev pub maps_path : ℕ → Bytes
maps_path tr_pid = codes "/proc/" ++ (decimal tr_pid ++ codes "/maps")

-- `open_maps_file`, with the text of the error.
unfoldable pub open_maps_file : ℕ → Option (List Bytes) → Bytes → Logged (Option (List Bytes))
open_maps_file tr_pid none error =
    create_log (codes "Opening \"%s\"..") (maps_path tr_pid ∷ []) >>= λ _.
    create_log (codes "FAIL: Can't open %s: %s\n") (maps_path tr_pid ∷ error ∷ []) >>= λ _.
    return none
open_maps_file tr_pid (some lines) error =
    create_log (codes "Opening \"%s\"..") (maps_path tr_pid ∷ []) >>= λ _.
    create_log (codes "SUCCEED") [] >>= λ _. return (some lines)

-- The file opened, what is logged before the parse, and a parse whose count is not -1 and passes the
-- check; `none` is the return of -1.
abbrev pub read_table :
    ℕ → Logged (Unit {0}) → Option (List Bytes) → Bytes → Logged (Option (List MapsLine))
read_table tr_pid announce file error = open_maps_file tr_pid file error >>= elim [
  | none ↦ return none
  | some lines ↦ announce >>= λ _. parse_maps lines >>= λ r. elim r.0 [
    | none ↦ return none
    | some count ↦
        check_parse_maps_err (some count)
        >>= elim [ true ↦ return (some r.1) | false ↦ return none ]
  ]
]

-- The rest of a round, on the table that was read.
unfoldable pub compare_tables : Tables → Option (List MapsLine) → Logged (Option Tables)
compare_tables t none = return none
compare_tables t (some next) = pml_diff t.cur t.num_lns_cur next (length next) >>= λ _.
    pml_swap (record t {
      next = next;
      num_lns_next = length next;
      live = t.live + (lines_blocks next + array_blocks next);
    })
    >>= λ t'. return (some t')

-- A round of `while(1)` behind the sleep.
unfoldable pub service_round : ℕ → Option (List Bytes) → Bytes → Tables → Logged (Option Tables)
service_round tr_pid file error t = read_table tr_pid (return tt) file error >>= compare_tables t

-- The loop over the files that are opened; `none` is the return of -1, and a list that is used up
-- leaves the service at its sleep.
unfoldable pub service_loop :
    ℕ → List (Option (List Bytes)) → Bytes → Option Tables → Logged (Option Tables)
service_loop tr_pid files error none = return none
service_loop tr_pid [] error (some t) = return (some t)
service_loop tr_pid (file ∷ files) error (some t) =
    service_round tr_pid file error t >>= service_loop tr_pid files error

-- The tables with which the loop begins.
abbrev pub first_tables : Option (List MapsLine) → Option Tables
first_tables none = none
first_tables (some cur) = some (record {
  cur = cur;
  num_lns_cur = length cur;
  next = [];
  num_lns_next = 0;
  live = lines_blocks cur + array_blocks cur;
})

unfoldable pub announce_start : Option (List MapsLine) → Logged (Option Tables)
announce_start none = return none
announce_start (some cur) =
    create_log (codes "SUCCEED: Service started!\n") [] >>= λ _. return (first_tables (some cur))

unfoldable pub start_service :
    ℕ → Option (List Bytes) → List (Option (List Bytes)) → Bytes → Logged (Option Tables)
start_service tr_pid first files error = create_log (codes "Starting service...\n") [] >>= λ _.
    create_log (codes "Tracking pid: %d") (decimal tr_pid ∷ []) >>= λ _.
    read_table tr_pid (create_log (codes "Parsing maps file...\n") []) first error
    >>= announce_start
    >>= service_loop tr_pid files error
