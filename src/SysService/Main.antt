-- ===== src/SysService/Main.antt =====
-- task6/sys-service/src/ss_main.c: `main` from the pid that scanf reads on. The result is the return
-- value; a service that is still at its loop has none.
use Prim.Native.Nat.{bit_and}
use sem.Common.{ℕ, Option, none, some, List, Bytes, [], codes, ◌==◌, if◌then◌else◌}
use sem.SysService.Log.{Logged, ◌>>=◌, return, create_log}
use sem.SysService.Config.{Config, Calls, Daemon, configure_service}
use sem.SysService.Diff.{Tables}
use sem.SysService.Service.{start_service}

-- What fork(2) returns: -1, 0 in the child, or the pid of the child.
pub data Fork : Type 0 where
  failed child parent : Fork

-- What the service finds in the maps files, and the text of the error when one cannot be opened.
pub record Snapshots : Type 0 where
  pub first : Option (List Bytes)
  pub later : List (Option (List Bytes))
  pub error : Bytes

unfoldable pub serve_foreground : Option Tables → Logged (Option ℕ)
serve_foreground none = create_log (codes "Starting service failed.") [] >>= λ _. return (some 1)
serve_foreground (some t) = return none

unfoldable pub serve_daemon : Option Tables → Logged (Option ℕ)
serve_daemon none = return (some 0)
serve_daemon (some t) = return none

abbrev pub configured : Config → ℕ → Calls → Daemon → Snapshots → Logged (Option Tables)
configured conf pid calls d s = configure_service (record conf { pid = pid }) calls d >>= λ _.
    start_service pid s.first s.later s.error

unfoldable pub main_service : Config → ℕ → Fork → Calls → Daemon → Snapshots → Logged (Option ℕ)
main_service conf pid Fork.failed calls d s =
    if bit_and conf.options 1 == 0
    then (configured conf pid calls d s >>= serve_foreground)
    else return (some 1)
main_service conf pid Fork.child calls d s =
    if bit_and conf.options 1 == 0
    then (configured conf pid calls d s >>= serve_foreground)
    else (configured conf pid calls d s >>= serve_daemon)
main_service conf pid Fork.parent calls d s =
    if bit_and conf.options 1 == 0
    then (configured conf pid calls d s >>= serve_foreground)
    else return (some 0)
