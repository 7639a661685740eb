-- ===== src/SysService/Entry.antt =====
-- task6/sys-service/src/ss_log.c: what `create_log` writes to the file, and `start_log`. What ctime
-- and open return are arguments.
use sem.Common.{
  cstr_text, ℕ, ◌+◌, ◌-◌, ◌<◌, ◌≡◌, ◌≢◌, refl, Bool, true, false, Option, none, some, List, [], ◌∷◌,
  ◌++◌, append_assoc, Bytes, codes, cstr, IsText, All-append, take, take-append, length,
  length-append, ◌==◌, ltb, if◌then◌else◌, Run, ok, fault, ◌>>=◌, arith,
}
use sem.SysService.Log.{path_len, msg_len, vsprintf}

-- `start_log`, with `log_fd`; the first part tells 0 from -1.
unfoldable pub start_log : Option ℕ → Bool × Option ℕ
start_log none = (false, none)
start_log (some fd) = (true, some fd)

-- `get_time`: the newline of ctime's text gives way to a NUL.
unfoldable pub get_time : Option Bytes → Run Bytes
get_time none = fault
get_time (some time_mark) =
    let n = length (cstr time_mark) in if n == 0 then fault else ok (take (n - 1) (cstr time_mark))

-- `strcat` into an array of `size` bytes.
unfoldable pub strcat : ℕ → Bytes → Bytes → Run Bytes
strcat size to from =
    let joined = to ++ cstr from in if ltb (length joined) size then ok joined else fault

-- `vsprintf` into an array of MSG_LEN bytes.
unfoldable pub print_msg : Bytes → List Bytes → Run Bytes
print_msg format args =
    vsprintf false format args >>= λ msg. if ltb (length msg) msg_len then ok msg else fault

-- `create_log`, on the file that `log_fd` refers to.
unfoldable pub write_entry : Option Bytes → Bytes → List Bytes → Bytes → Run Bytes
write_entry now format args file = do
  time_mark ← get_time now
  timed ← strcat path_len [] time_mark
  tabbed ← strcat path_len timed (codes "\t")
  msg ← print_msg format args
  said ← strcat path_len tabbed msg
  log ← strcat path_len said (codes "\n")
  ok (file ++ log)

-- A file that holds the entries of a log, each behind a time of 24 bytes.
pub data IsFileOf : List Bytes → Bytes → Type 0 where
  new : IsFileOf [] []
  entry :
      {log : List Bytes} {file : Bytes} (time msg : Bytes)
      → IsFileOf log file
      → length time ≡ 24
      → IsFileOf (log ++ msg ∷ []) (file ++ (time ++ (codes "\t" ++ (msg ++ codes "\n"))))

pub strcat-ok :
    (size : ℕ) (to from : Bytes)
    → IsText from
    → length to + length from < size
    → strcat size to from ≡ ok (to ++ from)
unfolding strcat
strcat-ok size to from h l =
    let e : ltb (length (to ++ from)) size ≡ true = ground (arith, length-append to from) in
    rw (cstr_text from h, e) refl

pub get_time-ok : (time : Bytes) → IsText time → get_time (some (time ++ codes "\n")) ≡ ok time
unfolding get_time
get_time-ok time h =
    let t = All-append (λ c. c ≢ 0) time (codes "\n") h (omega arith) in
    let n = length-append time (codes "\n") in
    let a : (length (time ++ codes "\n") == 0) ≡ false = ground (arith, n) in
    let b : length (time ++ codes "\n") - 1 ≡ length time = omega (arith, n) in
    rw (cstr_text (time ++ codes "\n") t, a, b, take-append (length time) time (codes "\n") refl)
      refl

-- The two strings in front of the message.
abbrev opening : Bytes → Bytes
opening time = time ++ codes "\t"

-- With a message that fits, the entry is written.
pub write_entry-ok :
    (time : Bytes) (format : Bytes) (args : List Bytes) (msg file : Bytes)
    → IsText time
    → length time ≡ 24
    → IsText msg
    → vsprintf false format args ≡ ok msg
    → length msg + 26 < 256
    → write_entry (some (time ++ codes "\n")) format args file
      ≡ ok (file ++ (time ++ (codes "\t" ++ (msg ++ codes "\n"))))
unfolding write_entry print_msg
write_entry-ok time format args msg file h n t e l =
    let o = length-append time (codes "\t") in
    let p = length-append (opening time) msg in
    let f : ltb (length msg) msg_len ≡ true = ground arith in
    let same : (opening time ++ msg) ++ codes "\n" ≡ time ++ (codes "\t" ++ (msg ++ codes "\n")) =
      simp append_assoc in
    rw
      (
        get_time-ok time h,
        strcat-ok path_len [] time h (omega (arith, n)),
        strcat-ok path_len time (codes "\t") (omega arith) (omega (arith, n)),
        e,
        f,
        strcat-ok path_len (opening time) msg t (omega (arith, l, o, n)),
        strcat-ok path_len (opening time ++ msg) (codes "\n") (omega arith)
            (omega (arith, l, o, n, p)),
        same,
      )
      refl
