-- ===== src/SysService/Preparing.antt =====
-- What the daemon has become when its preparation has succeeded.
use Prim.Native.Nat.{bit_and}
use sem.Common.{
  ℕ, ◌≡◌, ◌≢◌, refl, sym, ap, ◌∙◌, ◌∷◌, Bool, true, false, ◌&&◌, Option, none, some, List, [],
  Bytes, codes, decimal, ◌==◌, if◌then◌else◌, ok, arith, ok-injective,
}
use sem.SysService.Log.{Logged, ◌>>=◌, return, create_log, >>=-eq-ok}
use sem.SysService.Config.{
  Config, Calls, Daemon, failed, close_all, block_signals, change_directory, new_session, preparing,
  require, configure_service,
}

-- A message is logged, and the rest goes on.
said :
    {B : Type 0} (format : Bytes) (args : List Bytes) (k : Logged B) (log : List Bytes)
    {r : B × List Bytes}
    → (create_log format args >>= λ _. k) log ≡ ok r
    → (log' : List Bytes) × (k log' ≡ ok r)
said format args k log h =
    let (_, log', a, h1) = >>=-eq-ok (create_log format args) (λ _. k) log h in (log', h1)

-- A preparation that has succeeded has not taken a branch that fails.
abbrev Done : Logged (Bool × Daemon) → List Bytes → Daemon → Type 0
Done m log d = (log' : List Bytes) × (m log ≡ ok ((true, d), log'))

not_failed : (calls : Calls) (d e : Daemon) (log : List Bytes) → Done (failed calls d) log e → ⊥
not_failed calls d e log (log', h) =
    let (l, h1) = said (codes "FAIL: %s") (calls.error ∷ []) (return (false, d)) log h in
    cc (ap (λ (r : (Bool × Daemon) × List Bytes). r.0.0) (ok-injective h1))

passed :
    (b : Bool) (m : Logged (Bool × Daemon)) (calls : Calls) (d e : Daemon) (log : List Bytes)
    → Done (if b then m else failed calls d) log e
    → (b ≡ true) × Done m log e
passed true m calls d e log h = (refl, h)
passed false m calls d e log h = absurd (not_failed calls d e log h)

skip :
    (format : Bytes) (args : List Bytes) (k : Logged (Bool × Daemon)) (log : List Bytes)
    (e : Daemon)
    → Done (create_log format args >>= λ _. k) log e
    → (log' : List Bytes) × Done k log' e
skip format args k log e (l, h) = let (log', h1) = said format args k log h in (log', (l, h1))

returned_daemon : (d e : Daemon) (log : List Bytes) → Done (return (true, d)) log e → d ≡ e
returned_daemon d e log (l, h) = ap (λ (r : (Bool × Daemon) × List Bytes). r.0.1) (ok-injective h)

block_signals-Done :
    (calls : Calls) (d e : Daemon) (log : List Bytes)
    → Done (block_signals calls d) log e
    → (calls.sigfillset ≡ true) × (calls.sigprocmask ≡ true) × (e ≡ record d { all_blocked = true })
unfolding block_signals
block_signals-Done calls d e log h =
    let (l1, h1) = skip (codes "Starting block all signals...") [] _ log e h in
    let (l2, h2) = skip (codes "Creating mask...") [] _ l1 e h1 in
    let (a, h3) = passed calls.sigfillset _ calls d e l2 h2 in
    let (l4, h4) = skip (codes "SUCCEED") [] _ l2 e h3 in
    let (b, h5) = passed calls.sigprocmask _ calls d e l4 h4 in
    let (l6, h6) = skip (codes "SUCCEED: All signals are blocked.") [] _ l4 e h5 in
    let (l7, h7) = skip (codes "Preparation completed successfully.") [] _ l6 e h6 in
    (a, b, sym (returned_daemon (record d { all_blocked = true }) e l7 h7))

change_directory-Done :
    (calls : Calls) (d e : Daemon) (log : List Bytes)
    → Done (change_directory calls d) log e
    → (calls.chdir ≡ true)
      × (calls.sigfillset ≡ true)
      × (calls.sigprocmask ≡ true)
      × (e ≡ record d { umask = some 0; at_root = true; all_blocked = true })
unfolding change_directory
change_directory-Done calls d e log h =
    let (l1, h1) = skip (codes "Setting file creation permissions...") [] _ log e h in
    let (l2, h2) = skip (codes "SUCCEED: Permissions are %04o") (codes "0777" ∷ []) _ l1 e h1 in
    let (l3, h3) = skip (codes "Changing current directory...") [] _ l2 e h2 in
    let (a, h4) = passed calls.chdir _ calls (record d { umask = some 0 }) e l3 h3 in
    let (l5, h5) = skip (codes "SUCCEED: Current directory is \"/\"") [] _ l3 e h4 in
    let (b, c, f) =
      block_signals-Done calls (record d { umask = some 0; at_root = true }) e l5 h5 in
    (a, b, c, f)

new_session-Done :
    (o : Option ℕ) (calls : Calls) (d e : Daemon) (log : List Bytes)
    → Done (new_session o calls d) log e
    → (sid : ℕ) × (o ≡ some sid)
      × (calls.chdir ≡ true)
      × (calls.sigfillset ≡ true)
      × (calls.sigprocmask ≡ true)
      × (e ≡ record d { sid = some sid; umask = some 0; at_root = true; all_blocked = true })
unfolding new_session
new_session-Done none calls d e log h =
    let (l1, h1) = skip (codes "Creating new session...") [] _ log e h in
    absurd (not_failed calls d e l1 h1)
new_session-Done (some sid) calls d e log h =
    let (l1, h1) = skip (codes "Creating new session...") [] _ log e h in
    let (l2, h2) = skip (codes "SUCCEED: Session id is %ld") (decimal sid ∷ []) _ l1 e h1 in
    let (a, b, c, f) = change_directory-Done calls (record d { sid = some sid }) e l2 h2 in
    (sid, refl, a, b, c, f)

-- What a successful preparation leaves, and that every call of it has succeeded.
pub record IsPrepared (calls : Calls) (e : Daemon) : Type 0 where
  pub stdin_closed : e.stdin_open ≡ false
  pub stdout_closed : e.stdout_open ≡ false
  pub stderr_closed : e.stderr_open ≡ false
  pub session : (sid : ℕ) × (calls.setsid ≡ some sid) × (e.sid ≡ some sid)
  pub mask : e.umask ≡ some 0
  pub root : e.at_root ≡ true
  pub blocked : e.all_blocked ≡ true

closed_all :
    (calls : Calls) (d : Daemon)
    → (calls.close_in && (calls.close_out && calls.close_err)) ≡ true
    → close_all calls d ≡ record d { stdin_open = false; stdout_open = false; stderr_open = false }
closed_all calls d h = ground arith

preparing-Done :
    (calls : Calls) (d e : Daemon) (log : List Bytes)
    → Done (preparing calls d) log e
    → IsPrepared calls e
unfolding preparing
preparing-Done calls d e log h =
    let (l1, h1) = skip (codes "Configuration has begun.") [] _ log e h in
    let (l2, h2) = skip (codes "Preparation has begun.") [] _ l1 e h1 in
    let (l3, h3) = skip (codes "Closing file descriptors...") [] _ l2 e h2 in
    let (a, h4) =
      passed (calls.close_in && (calls.close_out && calls.close_err)) _ calls (close_all calls d) e
        l3 h3 in
    let (l5, h5) = skip (codes "SUCCEED") [] _ l3 e h4 in
    let (sid, o, b, c, f, g) = new_session-Done calls.setsid calls (close_all calls d) e l5 h5 in
    let k = closed_all calls d a in
    record {
      stdin_closed = ap (λ (x : Daemon). x.stdin_open) g ∙ ap (λ (x : Daemon). x.stdin_open) k;
      stdout_closed = ap (λ (x : Daemon). x.stdout_open) g ∙ ap (λ (x : Daemon). x.stdout_open) k;
      stderr_closed = ap (λ (x : Daemon). x.stderr_open) g ∙ ap (λ (x : Daemon). x.stderr_open) k;
      session = (sid, o, ap (λ (x : Daemon). x.sid) g);
      mask = ap (λ (x : Daemon). x.umask) g;
      root = ap (λ (x : Daemon). x.at_root) g;
      blocked = ap (λ (x : Daemon). x.all_blocked) g;
    }

required :
    (r : Bool × Daemon) (log : List Bytes) {s : Daemon × List Bytes}
    → require r log ≡ ok s
    → (r.0 ≡ true) × (r.1 ≡ s.0)
required (true, d) log h = (refl, ap (λ (x : Daemon × List Bytes). x.0) (ok-injective h))
required (false, d) log h = absurd (cc)

-- In the daemon mode `configure_service` comes back only as a daemon whose standard descriptors are
-- closed, that leads the session that setsid gave, stands in the root directory with an empty mask,
-- and has all signals blocked; where a call fails, it does not come back.
pub configure_service-IsPrepared :
    (conf : Config) (calls : Calls) (d e : Daemon) (log log' : List Bytes)
    → bit_and conf.options 1 ≢ 0
    → configure_service conf calls d log ≡ ok (e, log')
    → IsPrepared calls e
unfolding configure_service
configure_service-IsPrepared conf calls d e log log' daemon h =
    let b : (bit_and conf.options 1 == 0) ≡ false = ground arith in
    let (d', l1, a1, h1) = >>=-eq-ok (preparing calls d >>= require) _ log (rw b at h) in
    let (r, l2, a2, h2) = >>=-eq-ok (preparing calls d) require log a1 in
    let (t, u) = required r l2 h2 in
    let (l3, h3) = said (codes "Configuration completed successfully.\n") [] (return d') l1 h1 in
    let same : d' ≡ e = ap (λ (x : Daemon × List Bytes). x.0) (ok-injective h3) in
    let done : preparing calls d log ≡ ok ((true, e), l2) =
      a2
      ∙ ap (λ (x : Bool). ok ((x, r.1), l2)) t
      ∙ ap (λ (x : Daemon). ok ((true, x), l2)) (u ∙ same) in
    preparing-Done calls d e log (l2, done)
