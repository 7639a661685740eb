-- ===== src/SysService/Config.antt =====
-- task6/sys-service/src/ss_config.c and src/ss_main.c. What getopt_long returns is an argument, and
-- so is what each system call returns.
use Prim.Native.Nat.{bit_or, bit_and}
use sem.Common.{
  ℕ, zero, suc, ◌+◌, ◌-◌, ◌*◌, ◌/◌, ◌%◌, ◌^◌, Bool, true, false, ◌&&◌, Option, none, some, List, [],
  ◌∷◌, Bytes, codes, decimal, set, get_or, length, ltb, ◌==◌, if◌then◌else◌, Run, ok, exit, fault,
}
use sem.SysService.Log.{Logged, ◌>>=◌, ◌>>◌, return, create_log}

-- `Config`: the options, whose lowest bit is the daemon mode, and the pid.
pub record Config : Type 0 where
  pub options : ℕ
  pub pid : ℕ

-- The loop of `parse_console_args` over the flags that getopt_long returns before -1.
unfoldable pub parse_flags : List ℕ → Config → Run Config
parse_flags [] conf = ok conf
parse_flags (flag ∷ flags) conf =
    let more = parse_flags flags (record conf { options = bit_or conf.options 1 }) in
    if flag == b'd' then more else if flag == b'h' then exit 0 else exit 1

-- `parse_console_args`; `pid` is what the field holds before it is read.
unfoldable pub parse_console_args : ℕ → List ℕ → ℕ → Run Config
parse_console_args argc flags pid =
    let conf : Config = record { options = 0; pid = pid } in
    let parsed = parse_flags flags conf in if argc == 1 then ok conf else parsed

abbrev pub perms_size : ℕ
perms_size = 3

abbrev pub perms_num : ℕ
perms_num = 3

abbrev pub perm_flags : Bytes
perm_flags = codes "xwr"

-- The loops of `oct_to_rwx` for the bits from `shift` on; `(n >> shift) & 1` is `n / 2 ^ shift % 2`.
unfoldable pub rwx_loop : ℕ → ℕ → ℕ → Bytes → Bytes
rwx_loop zero shift n perms = perms
rwx_loop (suc rounds) shift n perms =
    let arr_sz = perms_size * perms_num in
    let pos = arr_sz - 1 - shift in
    rwx_loop rounds (shift + 1) n (
      if n / 2 ^ shift % 2 == 1
      then set perms pos (get_or perm_flags (shift % perms_size) 0)
      else perms)

-- `oct_to_rwx`: its strcpy copies nine characters and a NUL into nine bytes.
unfoldable pub oct_to_rwx : ℕ → Run Bytes
oct_to_rwx n =
    let arr_sz = perms_size * perms_num in
    let template = codes "---------" in
    if ltb (length template) arr_sz then ok (rwx_loop arr_sz 0 n template) else fault

-- What `preparing` changes: the three standard descriptors, the session, the mask of file modes, the
-- directory, and the blocked signals.
pub record Daemon : Type 0 where
  pub stdin_open : Bool
  pub stdout_open : Bool
  pub stderr_open : Bool
  pub sid : Option ℕ
  pub umask : Option ℕ
  pub at_root : Bool
  pub all_blocked : Bool

-- What the system calls of `preparing` return; `setsid` is `none` for -1.
pub record Calls : Type 0 where
  pub close_in : Bool
  pub close_out : Bool
  pub close_err : Bool
  pub setsid : Option ℕ
  pub chdir : Bool
  pub sigfillset : Bool
  pub sigprocmask : Bool
  pub error : Bytes

abbrev pub failed : Calls → Daemon → Logged (Bool × Daemon)
failed calls d = create_log (codes "FAIL: %s") (calls.error ∷ []) >>= λ _. return (false, d)

-- The descriptors are closed one after the other, up to the first that fails.
abbrev pub close_all : Calls → Daemon → Daemon
close_all calls d =
    if calls.close_in
    then (if calls.close_out
        then (if calls.close_err
            then record d { stdin_open = false; stdout_open = false; stderr_open = false }
            else record d { stdin_open = false; stdout_open = false })
        else record d { stdin_open = false })
    else d

unfoldable pub block_signals : Calls → Daemon → Logged (Bool × Daemon)
block_signals calls d = do
  create_log (codes "Starting block all signals...") []
  create_log (codes "Creating mask...") []
  if calls.sigfillset
      then (do
        create_log (codes "SUCCEED") []
        if calls.sigprocmask
            then (do
              create_log (codes "SUCCEED: All signals are blocked.") []
              create_log (codes "Preparation completed successfully.") []
              return (true, record d { all_blocked = true }))
            else failed calls d)
      else failed calls d

unfoldable pub change_directory : Calls → Daemon → Logged (Bool × Daemon)
change_directory calls d = do
  create_log (codes "Setting file creation permissions...") []
  create_log (codes "SUCCEED: Permissions are %04o") (codes "0777" ∷ [])
  create_log (codes "Changing current directory...") []
  if calls.chdir
      then (do
        create_log (codes "SUCCEED: Current directory is \"/\"") []
        block_signals calls (record d { umask = some 0; at_root = true }))
      else failed calls (record d { umask = some 0 })

unfoldable pub new_session : Option ℕ → Calls → Daemon → Logged (Bool × Daemon)
new_session none calls d = create_log (codes "Creating new session...") [] >>= λ _. failed calls d
new_session (some sid) calls d = create_log (codes "Creating new session...") [] >>= λ _.
    create_log (codes "SUCCEED: Session id is %ld") (decimal sid ∷ []) >>= λ _.
    change_directory calls (record d { sid = some sid })

-- `preparing`; the first part of the result tells 0 from -1.
unfoldable pub preparing : Calls → Daemon → Logged (Bool × Daemon)
preparing calls d = do
  create_log (codes "Configuration has begun.") []
  create_log (codes "Preparation has begun.") []
  create_log (codes "Closing file descriptors...") []
  if calls.close_in && (calls.close_out && calls.close_err)
      then (do create_log (codes "SUCCEED") []; new_session calls.setsid calls (close_all calls d))
      else failed calls (close_all calls d)

-- The end of `configure_service` in the daemon mode: a preparation that fails ends the process.
abbrev pub require : Bool × Daemon → Logged Daemon
require (true, d) log = ok (d, log)
require (false, d) log = exit 1

unfoldable pub configure_service : Config → Calls → Daemon → Logged Daemon
configure_service conf calls d =
    (if bit_and conf.options 1 == 0
      then (create_log (codes "Configuration has begun.") [] >>= λ _. return d)
      else (preparing calls d >>= require))
    >>= λ d'. create_log (codes "Configuration completed successfully.\n") [] >>= λ _. return d'
