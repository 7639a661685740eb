-- ===== src/SysService/Log.antt =====
-- task6/sys-service/src/ss_log.c: `create_log` and what a piece of the service does to the log.
-- An entry is the message; the time mark of 24 bytes and the tab in front, and the newline behind,
-- count for the size of the buffer.
use sem.Common.{
  ◌<◌, ℕ, ◌+◌, ◌-◌, ◌≡◌, ◌≢◌, refl, Bool, true, false, ◌||◌, ◌&&◌, List, [], ◌∷◌, ◌++◌, Bytes,
  length, All, ◌==◌, leb, ltb, if◌then◌else◌, Run, ok, exit, fault, arith,
}

abbrev pub path_len : ℕ
path_len = 256

abbrev pub time_mark_len : ℕ
time_mark_len = 24

abbrev pub msg_len : ℕ
msg_len = path_len - time_mark_len

-- A piece of the service that writes to the log.
abbrev pub Logged : Type 0 → Type 0
Logged A = List Bytes → Run (A × List Bytes)

infixl 5 ◌>>=◌ ◌>>◌
abbrev pub ◌>>=◌ : {A B : Type 0} → Logged A → (A → Logged B) → Logged B
◌>>=◌ m f log = elim (m log) [ ok r ↦ f r.0 r.1 | exit n ↦ exit n | fault ↦ fault ]

abbrev pub ◌>>◌ : {B : Type 0} → Logged (Unit {0}) → Logged B → Logged B
m >> k = m >>= λ _. k

abbrev pub return : {A : Type 0} → A → Logged A
return a log = ok (a, log)

-- A step that succeeds hands its value and its log to the rest.
pub >>=-ok :
    {A B : Type 0} (m : Logged A) (f : A → Logged B) (log : List Bytes) {a : A} {log' : List Bytes}
    → m log ≡ ok (a, log')
    → (m >>= f) log ≡ f a log'
>>=-ok m f log h = rw (h, ◌>>=◌)

-- And a chain that succeeds is one whose first step does.
pub >>=-eq-ok :
    {A B : Type 0} (m : Logged A) (f : A → Logged B) (log : List Bytes) {r : B × List Bytes}
    → (m >>= f) log ≡ ok r
    → (a : A) × (log' : List Bytes) × (m log ≡ ok (a, log')) × (f a log' ≡ ok r)
>>=-eq-ok {A} {B} m f log {r} h = go (m log) refl h
  where
    go :
        (x : Run (A × List Bytes))
        → m log ≡ x
        → elim x as (λ y. Run (B × List Bytes)) [
          | ok s ↦ f s.0 s.1
          | exit n ↦ exit n
          | fault ↦ fault
        ]
          ≡ ok r
        → (a : A) × (log' : List Bytes) × (m log ≡ ok (a, log')) × (f a log' ≡ ok r)
    go (ok s) e k = (s.0, s.1, e, k)
    go (exit n) e k = absurd (cc)
    go fault e k = absurd (cc)

-- The characters between `%` and the letter of a conversion.
abbrev is_modifier : ℕ → Bool
is_modifier c = (leb b'0' c && leb c b'9') || c == b'l'

-- `vsprintf`: each conversion takes the next of the arguments, which are printed already; without
-- one it reads what is not there. The first argument tells whether a conversion has begun.
unfoldable pub vsprintf : Bool → Bytes → List Bytes → Run Bytes
vsprintf false [] args = ok []
vsprintf true [] args = fault
vsprintf false (c ∷ s) args =
    let convert = vsprintf true s args in
    let copy = vsprintf false s args in
    if c == b'%' then convert else elim copy [ ok t ↦ ok (c ∷ t) | exit n ↦ exit n | fault ↦ fault ]
vsprintf true (c ∷ s) [] =
    let more = vsprintf true s [] in
    let copy = vsprintf false s [] in
    if is_modifier c
    then more
    else if c == b'%'
    then elim copy [ ok t ↦ ok (c ∷ t) | exit n ↦ exit n | fault ↦ fault ]
    else fault
vsprintf true (c ∷ s) (a ∷ args) =
    let more = vsprintf true s (a ∷ args) in
    let same = vsprintf false s (a ∷ args) in
    let next = vsprintf false s args in
    if is_modifier c
    then more
    else if c == b'%'
    then elim same [ ok t ↦ ok (c ∷ t) | exit n ↦ exit n | fault ↦ fault ]
    else elim next [ ok t ↦ ok (a ++ t) | exit n ↦ exit n | fault ↦ fault ]

-- The two buffers of `create_log`: `msg` of MSG_LEN bytes and `log` of PATH_LEN bytes.
unfoldable pub append_log : Bytes → Logged (Unit {0})
append_log msg log =
    if ltb (length msg) msg_len && ltb (time_mark_len + length msg + 2) path_len
    then ok (tt, log ++ msg ∷ [])
    else fault

unfoldable pub create_log : Bytes → List Bytes → Logged (Unit {0})
create_log format args log = elim (vsprintf false format args) [
  | ok msg ↦ append_log msg log
  | exit n ↦ exit n
  | fault ↦ fault
]

-- A text that vsprintf copies as it is.
abbrev pub IsPlain : Bytes → Type 0
IsPlain = All (λ c. c ≢ b'%')

pub vsprintf-IsPlain : (s : Bytes) (args : List Bytes) → IsPlain s → vsprintf false s args ≡ ok s
unfolding vsprintf
vsprintf-IsPlain [] args h = refl
vsprintf-IsPlain (c ∷ s) args (hc, h) = ground (arith, vsprintf-IsPlain s args h)

-- A plain message of at most 229 bytes is logged as it is.
pub create_log-IsPlain :
    (msg : Bytes) (args log : List Bytes)
    → IsPlain msg
    → length msg < 230
    → create_log msg args log ≡ ok (tt, log ++ msg ∷ [])
unfolding create_log append_log
create_log-IsPlain msg args log h k = rw (vsprintf-IsPlain msg args h, create_log) (ground arith)
