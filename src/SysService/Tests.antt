-- ===== src/SysService/Tests.antt =====
-- Runs of the service on small maps files.
use sem.Common.{
  ◌≡◌, refl, some, [], ◌∷◌, ◌++◌, Bytes, codes, arith, ok, exit, fault, replicate, tokens_from,
  digits, true, false, none, ◌⊎◌,
}
use sem.SysService.Log.{create_log, append_log, vsprintf}
use sem.SysService.Maps.{
  MapsLine, no_fields, parse_maps_line, parse_fields, parse_field, print_parsed_maps_line,
  check_parse_maps_line_err, check_parse_maps_err, parse_maps, parse_lines, free_pml,
}
use sem.SysService.Diff.{pml_diff, diff_lines, diff_line, print_diff_pml, Tables, pml_swap}
use sem.SysService.Laws.{fields, word}
use sem.SysService.Reports.{print_parsed_maps_line-overrun}
use sem.SysService.Service.{
  start_service, service_loop, service_round, compare_tables, announce_start, open_maps_file,
}
use sem.SysService.Round.{at_rest, IsReadable}
use sem.SysService.Watching.{session, start_service-session}
use sem.SysService.Main.{Fork, main_service}
use sem.SysService.Gone.{story, main_service-gone}
use sem.SysService.Balance.{IsBalanced, start_service-IsBalanced}
use sem.SysService.Config.{
  parse_console_args, parse_flags, rwx_loop, Calls, Daemon, configure_service, preparing,
  new_session, change_directory, block_signals,
}
use sem.SysService.Entry.{IsFileOf, new, write_entry}
use sem.SysService.Refinement.{write_entry-create_log}
use sem.SysService.Flags.{parse_console_args_lem}
use sem.SysService.Permissions.{rwx_loop-digits, rwx_digit}
use sem.SysService.Preparing.{IsPrepared, configure_service-IsPrepared}

abbrev heap : Bytes → MapsLine
heap a = record no_fields { address = some a; perms = some (codes "rw") }

one-IsReadable : IsReadable (codes "1 rw\n" ∷ [])
unfolding tokens_from fields word
one-IsReadable = (omega arith, ((omega arith, omega arith), tt))

two-IsReadable : IsReadable (codes "2 rw\n" ∷ [])
unfolding tokens_from fields word
two-IsReadable = (omega arith, ((omega arith, omega arith), tt))

-- Two rounds of a service: the first finds another line, the second the same.
start_service-session_example :
    start_service 7
      (some (codes "1 rw\n" ∷ []))
      (some (codes "2 rw\n" ∷ []) ∷ some (codes "2 rw\n" ∷ []) ∷ [])
      []
      []
    ≡ ok (
      some (at_rest (heap (codes "2") ∷ [])),
      session 7 (codes "1 rw\n" ∷ []) ((codes "2 rw\n" ∷ []) ∷ (codes "2 rw\n" ∷ []) ∷ []),
    )
unfolding tokens_from fields word
start_service-session_example =
    start_service-session 7 (codes "1 rw\n" ∷ [])
      ((codes "2 rw\n" ∷ []) ∷ (codes "2 rw\n" ∷ []) ∷ []) [] [] (omega arith) one-IsReadable
      (two-IsReadable, (two-IsReadable, tt))

-- A system in which every call succeeds.
abbrev all_succeed : Calls
all_succeed = record {
  close_in = true;
  close_out = true;
  close_err = true;
  setsid = some 7;
  chdir = true;
  sigfillset = true;
  sigprocmask = true;
  error = [];
}

abbrev started : Daemon
started = record {
  stdin_open = true;
  stdout_open = true;
  stderr_open = true;
  sid = none;
  umask = none;
  at_root = false;
  all_blocked = false;
}

-- Two rounds again, and then the process is gone.
main_service-gone_example :
    main_service
      (record { options = 0; pid = 0 })
      7
      Fork.failed
      all_succeed
      started
      (record {
        first = some (codes "1 rw\n" ∷ []);
        later = some (codes "2 rw\n" ∷ []) ∷ none ∷ [];
        error = codes "No such file or directory";
      })
      []
    ≡ ok (
      some 1,
      story 7
          (codes "1 rw\n" ∷ [])
          ((codes "2 rw\n" ∷ []) ∷ [])
          (codes "No such file or directory"),
    )
main_service-gone_example =
    main_service-gone (record { options = 0; pid = 0 }) 7 Fork.failed all_succeed started
      (codes "1 rw\n" ∷ []) ((codes "2 rw\n" ∷ []) ∷ []) [] (codes "No such file or directory") []
      refl (omega arith) one-IsReadable (two-IsReadable, tt) (omega arith)

abbrev long_line : MapsLine
long_line = record no_fields { path = some (replicate 240 b'x') }

print_parsed_maps_line-overrun_example : print_parsed_maps_line long_line [] ≡ fault
print_parsed_maps_line-overrun_example = print_parsed_maps_line-overrun long_line [] (omega arith)

abbrev two_tables : Tables
two_tables = record {
  cur = heap (codes "2") ∷ [];
  num_lns_cur = 1;
  next = [];
  num_lns_next = 0;
  live = 3;
}

start_service-IsBalanced_example : IsBalanced two_tables
unfolding start_service service_loop service_round compare_tables announce_start open_maps_file
    parse_maps parse_lines parse_maps_line parse_fields parse_field print_parsed_maps_line
    check_parse_maps_line_err check_parse_maps_err create_log append_log vsprintf pml_diff
    diff_lines diff_line print_diff_pml pml_swap free_pml tokens_from digits
start_service-IsBalanced_example =
    start_service-IsBalanced 7 (some (codes "1 rw\n" ∷ [])) (some (codes "2 rw\n" ∷ []) ∷ []) []
      two_tables [] _ refl

-- Flags: `-d` is the daemon mode, `-h` leaves with 0 and another flag with 1.
flags_daemon : parse_console_args 2 (b'd' ∷ []) 5 ≡ ok (record { options = 1; pid = 5 })
unfolding parse_console_args parse_flags
flags_daemon = refl

flags_help : parse_console_args 2 (b'h' ∷ []) 5 ≡ exit 0
unfolding parse_console_args parse_flags
flags_help = refl

parse_console_args_lem_example :
    (parse_console_args 2 (b'd' ∷ []) 5 ≡ ok (record { options = 1; pid = 5 }))
    × (parse_console_args 2 (b'd' ∷ b'h' ∷ []) 5 ≡ exit 0)
parse_console_args_lem_example = parse_console_args_lem 2 1 b'h' [] 5 (omega arith) (omega arith)

rwx_loop-digits_example :
    rwx_loop 9 0 365 (codes "---------") ≡ rwx_digit 5 ++ (rwx_digit 5 ++ rwx_digit 5)
rwx_loop-digits_example = rwx_loop-digits 365

abbrev prepared : Daemon
prepared = record {
  stdin_open = false;
  stdout_open = false;
  stderr_open = false;
  sid = some 7;
  umask = some 0;
  at_root = true;
  all_blocked = true;
}

configure_service-IsPrepared_example : IsPrepared all_succeed prepared
unfolding configure_service preparing new_session change_directory block_signals create_log
    append_log vsprintf digits
configure_service-IsPrepared_example =
    configure_service-IsPrepared (record { options = 1; pid = 5 }) all_succeed started prepared [] _
      (omega arith) refl

-- The text of ctime without its newline.
abbrev epoch : Bytes
epoch = codes "Thu Jan  1 00:00:00 1970"

write_entry-create_log_example :
    ((file' : Bytes) × (create_log (codes "PID %d") (codes "42" ∷ []) []
        ≡ ok (tt, [] ++ codes "PID 42" ∷ []))
      × (write_entry (some (epoch ++ codes "\n")) (codes "PID %d") (codes "42" ∷ []) [] ≡ ok file')
      × IsFileOf ([] ++ codes "PID 42" ∷ []) file')
    ⊎ ((create_log (codes "PID %d") (codes "42" ∷ []) [] ≡ fault)
        × (write_entry (some (epoch ++ codes "\n")) (codes "PID %d") (codes "42" ∷ []) [] ≡ fault))
unfolding vsprintf
write_entry-create_log_example =
    write_entry-create_log epoch (codes "PID %d") (codes "42" ∷ []) (codes "PID 42") [] []
      (omega arith) refl (omega arith) refl new
