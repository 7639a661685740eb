-- ===== src/SysService/Refinement.antt =====
-- The log of messages as what the file of the log holds.
use sem.Common.{
  cstr_text, ℕ, ◌+◌, ◌≤◌, ◌<◌, ◌≡◌, refl, ◌∙◌, false, some, List, [], ◌∷◌, ◌++◌, Bytes, codes,
  IsText, length, length-append, ltb, ok, fault, Bool-cases, inl, inr, ◌⊎◌, arith,
}
use sem.SysService.Log.{path_len, msg_len, vsprintf, append_log, create_log}
use sem.SysService.Entry.{
  strcat, print_msg, write_entry, IsFileOf, entry, strcat-ok, get_time-ok, write_entry-ok,
}

strcat-faults :
    (size : ℕ) (to from : Bytes)
    → IsText from
    → size ≤ length to + length from
    → strcat size to from ≡ fault
unfolding strcat
strcat-faults size to from h l =
    let e : ltb (length (to ++ from)) size ≡ false = ground (arith, length-append to from) in
    rw (cstr_text from h, e) refl

-- The buffers overrun.
too_long :
    (time : Bytes) (format : Bytes) (args : List Bytes) (msg file : Bytes)
    → IsText time
    → length time ≡ 24
    → IsText msg
    → vsprintf false format args ≡ ok msg
    → 230 ≤ length msg
    → write_entry (some (time ++ codes "\n")) format args file ≡ fault
unfolding write_entry print_msg
too_long time format args msg file h n t e l =
    let o = length-append time (codes "\t") in
    let p = length-append (time ++ codes "\t") msg in
    let a = get_time-ok time h in
    let b = strcat-ok path_len [] time h (omega (arith, n)) in
    let c = strcat-ok path_len time (codes "\t") (omega arith) (omega (arith, n)) in
    elim (Bool-cases (ltb (length msg) msg_len)) [
      | inr f ↦ rw (a, b, c, e, f) refl
      | inl f ↦ elim (Bool-cases (ltb (length msg) 231)) [
        | inr g ↦
            rw
              (
                a,
                b,
                c,
                e,
                f,
                strcat-faults path_len (time ++ codes "\t") msg t (ground (arith, o, n)),
              )
              refl
        | inl g ↦
            rw
              (
                a,
                b,
                c,
                e,
                f,
                strcat-ok path_len (time ++ codes "\t") msg t (ground (arith, o, n)),
                strcat-faults path_len ((time ++ codes "\t") ++ msg) (codes "\n") (omega arith)
                    (omega (arith, l, o, n, p)),
              )
              refl
      ]
    ]

-- Whether `append_log` takes a message.
append_log-cases :
    (msg : Bytes) (log : List Bytes)
    → ((length msg + 26 < 256) × (append_log msg log ≡ ok (tt, log ++ msg ∷ [])))
      ⊎ ((230 ≤ length msg) × (append_log msg log ≡ fault))
unfolding append_log
append_log-cases msg log = elim (Bool-cases (ltb (length msg) 230)) [
  | inl e ↦ inl (ground arith, ground arith)
  | inr e ↦ inr (ground arith, ground arith)
]

create_log-ok :
    (format : Bytes) (args log : List Bytes) {msg : Bytes}
    → vsprintf false format args ≡ ok msg
    → create_log format args log ≡ append_log msg log
unfolding create_log
create_log-ok format args log h = rw (h, create_log) refl

-- Where the time is the text of 24 characters and a newline that ctime gives, and the message holds no
-- NUL, `create_log` writes an entry to a file exactly if the message is added to the log of messages,
-- and the file then holds the longer log; if the one overruns a buffer, so does the other.
pub write_entry-create_log :
    (time : Bytes) (format : Bytes) (args : List Bytes) (msg : Bytes) (log : List Bytes)
    (file : Bytes)
    → IsText time
    → length time ≡ 24
    → IsText msg
    → vsprintf false format args ≡ ok msg
    → IsFileOf log file
    → ((file' : Bytes) × (create_log format args log ≡ ok (tt, log ++ msg ∷ []))
        × (write_entry (some (time ++ codes "\n")) format args file ≡ ok file')
        × IsFileOf (log ++ msg ∷ []) file')
      ⊎ ((create_log format args log ≡ fault)
          × (write_entry (some (time ++ codes "\n")) format args file ≡ fault))
write_entry-create_log time format args msg log file h n t e f =
    let c = create_log-ok format args log e in
    elim (append_log-cases msg log) [
      | inl k ↦
          inl (_, c ∙ k.1, write_entry-ok time format args msg file h n t e k.0, entry time msg f n)
      | inr k ↦ inr (c ∙ k.1, too_long time format args msg file h n t e k.0)
    ]
