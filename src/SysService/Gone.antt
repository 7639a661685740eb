-- ===== src/SysService/Gone.antt =====
-- How the service ends when the maps file cannot be opened any more.
use Prim.Native.Nat.{bit_and}
use sem.Common.{
  ℕ, ◌≤◌, ◌≡◌, ◌∙◌, refl, true, ◌==◌, Option, none, some, List, [], ◌∷◌, ◌++◌, Bytes, codes,
  decimal, length, length-append, map, ok, arith, All,
}
use sem.SysService.Log.{◌>>=◌, return, create_log, vsprintf}
use sem.SysService.Config.{Config, Calls, Daemon, configure_service}
use sem.SysService.Entries.{Says, Says-chain, Says-return, Says-plain, Says-printed, table}
use sem.SysService.Service.{
  maps_path, open_maps_file, read_table, compare_tables, service_round, service_loop, start_service,
}
use sem.SysService.Round.{int_max, decimal-short, opening, opening-Says, IsReadable, at_rest}
use sem.SysService.Watching.{prologue, rounds, last_of, service_loop-Says, start_service-Says}
use sem.SysService.Main.{Fork, Snapshots, configured, serve_foreground, main_service}

abbrev pub refused : ℕ → Bytes → Bytes
refused tr_pid error =
    codes "FAIL: Can't open " ++ (maps_path tr_pid ++ (codes ": " ++ (error ++ codes "\n")))

refused-Says :
    (tr_pid : ℕ) (error : Bytes)
    → tr_pid ≤ int_max
    → length error ≤ 150
    → Says
        (create_log (codes "FAIL: Can't open %s: %s\n") (maps_path tr_pid ∷ error ∷ []))
        tt
        (refused tr_pid error ∷ [])
unfolding vsprintf
refused-Says tr_pid error h l =
    Says-printed (codes "FAIL: Can't open %s: %s\n") (maps_path tr_pid ∷ error ∷ [])
      (refused tr_pid error) refl
      (omega (
        arith,
        decimal-short tr_pid h,
        length-append (decimal tr_pid) (codes "/maps"),
        l,
        length-append (maps_path tr_pid) (codes ": " ++ (error ++ codes "\n")),
        length-append error (codes "\n"),
      ))

open_maps_file-refused :
    (tr_pid : ℕ) (error : Bytes)
    → tr_pid ≤ int_max
    → length error ≤ 150
    → Says (open_maps_file tr_pid none error) none (opening tr_pid ∷ refused tr_pid error ∷ [])
unfolding open_maps_file
open_maps_file-refused tr_pid error h l =
    Says-chain (create_log (codes "Opening \"%s\"..") (maps_path tr_pid ∷ [])) _
      (opening tr_pid ∷ []) (refused tr_pid error ∷ []) (opening-Says tr_pid h)
      (Says-chain (create_log (codes "FAIL: Can't open %s: %s\n") (maps_path tr_pid ∷ error ∷ [])) _
        (refused tr_pid error ∷ []) [] (refused-Says tr_pid error h l) (Says-return none))

service_loop-refused :
    (tr_pid : ℕ) (lines : List Bytes) (later : List (Option (List Bytes))) (error : Bytes)
    → tr_pid ≤ int_max
    → length error ≤ 150
    → Says
        (service_loop tr_pid (none ∷ later) error (some (at_rest (table lines))))
        none
        (opening tr_pid ∷ refused tr_pid error ∷ [])
unfolding service_loop service_round compare_tables
service_loop-refused tr_pid lines later error h l =
    Says-chain (service_round tr_pid none error (at_rest (table lines)))
      (service_loop tr_pid later error) (opening tr_pid ∷ refused tr_pid error ∷ []) []
      (Says-chain (read_table tr_pid (return tt) none error)
        (compare_tables (at_rest (table lines))) (opening tr_pid ∷ refused tr_pid error ∷ []) []
        (Says-chain (open_maps_file tr_pid none error) _
          (opening tr_pid ∷ refused tr_pid error ∷ []) [] (open_maps_file-refused tr_pid error h l)
          (Says-return none))
        (Says-return none))
      (Says-return none)

start_service-refused :
    (tr_pid : ℕ) (first : List Bytes) (files : List (List Bytes))
    (later : List (Option (List Bytes))) (error : Bytes)
    → tr_pid ≤ int_max
    → IsReadable first
    → All IsReadable files
    → length error ≤ 150
    → Says (start_service tr_pid (some first) (map some files ++ none ∷ later) error) none (
        prologue tr_pid first
        ++ (rounds tr_pid first files ++ opening tr_pid ∷ refused tr_pid error ∷ []))
start_service-refused tr_pid first files later error h r rs l =
    start_service-Says tr_pid first (map some files ++ none ∷ later) error none
      (rounds tr_pid first files ++ opening tr_pid ∷ refused tr_pid error ∷ []) h r
      (service_loop-Says tr_pid first files (none ∷ later) error none
        (opening tr_pid ∷ refused tr_pid error ∷ []) h r rs
        (service_loop-refused tr_pid (last_of first files) later error h l))

abbrev pub configuring : List Bytes
configuring =
    codes "Configuration has begun." ∷ codes "Configuration completed successfully.\n" ∷ []

configure_service-Says :
    (conf : Config) (calls : Calls) (d : Daemon)
    → (bit_and conf.options 1 == 0) ≡ true
    → Says (configure_service conf calls d) d configuring
unfolding configure_service
configure_service-Says conf calls d e log = rw e (
    Says-chain (create_log (codes "Configuration has begun.") [] >>= λ _. return d) _
      (codes "Configuration has begun." ∷ []) (codes "Configuration completed successfully.\n" ∷ [])
      (Says-chain (create_log (codes "Configuration has begun.") []) _
        (codes "Configuration has begun." ∷ []) []
        (Says-plain (codes "Configuration has begun.") (omega arith) (omega arith)) (Says-return d))
      (Says-chain (create_log (codes "Configuration completed successfully.\n") []) _
        (codes "Configuration completed successfully.\n" ∷ []) []
        (Says-plain (codes "Configuration completed successfully.\n") (omega arith) (omega arith))
        (Says-return d))
      log)

-- The log of a service that is not a daemon, up to the file that cannot be opened.
abbrev pub story : ℕ → List Bytes → List (List Bytes) → Bytes → List Bytes
story tr_pid first files error =
    (configuring
      ++ (prologue tr_pid first
          ++ (rounds tr_pid first files ++ opening tr_pid ∷ refused tr_pid error ∷ [])))
    ++ codes "Starting service failed." ∷ []

foreground :
    (conf : Config) (tr_pid : ℕ) (fork : Fork) (calls : Calls) (d : Daemon) (s : Snapshots)
    (log : List Bytes)
    → (bit_and conf.options 1 == 0) ≡ true
    → main_service conf tr_pid fork calls d s log
      ≡ (configured conf tr_pid calls d s >>= serve_foreground) log
unfolding main_service
foreground conf tr_pid Fork.failed calls d s log e = rw e refl
foreground conf tr_pid Fork.child calls d s log e = rw e refl
foreground conf tr_pid Fork.parent calls d s log e = rw e refl

-- A service that is not a daemon, whose first file and a number of files behind it are readable and
-- whose next cannot be opened, with a text of at most 150 characters for the error, returns 1 from
-- main. Its log is that of the configuration, of the start, of a round for each file, of the failure
-- with the path and the error, and a last message.
pub main_service-gone :
    (conf : Config) (tr_pid : ℕ) (fork : Fork) (calls : Calls) (d : Daemon) (first : List Bytes)
    (files : List (List Bytes)) (later : List (Option (List Bytes))) (error : Bytes)
    (log : List Bytes)
    → (bit_and conf.options 1 == 0) ≡ true
    → tr_pid ≤ int_max
    → IsReadable first
    → All IsReadable files
    → length error ≤ 150
    → main_service conf tr_pid fork calls d
        (record { first = some first; later = map some files ++ none ∷ later; error = error })
        log
      ≡ ok (some 1, log ++ story tr_pid first files error)
unfolding serve_foreground
main_service-gone conf tr_pid fork calls d first files later error log e h r rs l =
    let s : Snapshots = record {
      first = some first;
      later = map some files ++ none ∷ later;
      error = error;
    } in
    let served =
      prologue tr_pid first
      ++ (rounds tr_pid first files ++ opening tr_pid ∷ refused tr_pid error ∷ []) in
    foreground conf tr_pid fork calls d s log e
    ∙ Says-chain (configured conf tr_pid calls d s) serve_foreground (configuring ++ served)
        (codes "Starting service failed." ∷ [])
        (Says-chain (configure_service (record conf { pid = tr_pid }) calls d) _ configuring served
          (configure_service-Says (record conf { pid = tr_pid }) calls d e)
          (start_service-refused tr_pid first files later error h r rs l))
        (Says-chain (create_log (codes "Starting service failed.") []) _
          (codes "Starting service failed." ∷ []) []
          (Says-plain (codes "Starting service failed.") (omega arith) (omega arith))
          (Says-return (some 1)))
        log
