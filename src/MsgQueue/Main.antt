-- ===== src/MsgQueue/Main.antt =====
-- task3/msg-queue-SYSV/src/mq_main.c. The queue is the list of the messages in it; the kernel keeps
-- their order, so the receiver reads what the sender has sent, whenever each of them runs.
use sem.Common.{
  ℕ, zero, suc, ◌-◌, ◌^◌, Bool, true, false, Option, none, some, List, [], ◌∷◌, ◌++◌, Bytes, cstr,
  take, drop, length, overlay, ◌==◌, ltb, leb, if◌then◌else◌, Run, ok, exit, fault,
}

abbrev pub msg_text_sz : ℕ
msg_text_sz = 128

abbrev pub std_msg_type : ℕ
std_msg_type = 1

abbrev pub last_msg_type : ℕ
last_msg_type = 255

-- `Message`, in the sender's memory with its whole array, in the queue with the bytes sent.
pub record Message : Type 0 where
  pub mtype : ℕ
  pub mtext : Bytes

-- `strcpy(s_msg.mtext, buf)`: without a NUL in the buffer it reads behind the end of it.
unfoldable pub copy_text : Bytes → Bytes → Run Bytes
copy_text mtext buf =
    if ltb (length (cstr buf)) (length buf)
    then ok (overlay 0 (cstr buf ++ 0 ∷ []) mtext)
    else fault

-- `msgsnd`, whose failure is not looked at: a size above the limit of the queue sends nothing.
abbrev pub msgsnd : ℕ → Message → ℕ → List Message
msgsnd limit msg size =
    if leb size limit then record msg { mtext = take size msg.mtext } ∷ [] else []

-- The sizes that read(2) can give; -1 is converted to size_t.
abbrev pub size_of : Option Bytes → ℕ
size_of none = 2 ^ 64 - 1
size_of (some got) = length got

abbrev pub bytes_of : Option Bytes → Bytes
bytes_of none = []
bytes_of (some got) = got

-- A round of the loop of `send` behind strcpy: the messages sent, and whether the loop goes on.
unfoldable pub send_round : ℕ → ℕ → Bytes → List Message × Bool
send_round limit read_sz mtext =
    let msg : Message = record { mtype = std_msg_type; mtext = mtext } in
    let last = msgsnd limit (record msg { mtype = last_msg_type }) 0 in
    if read_sz == msg_text_sz
    then (msgsnd limit msg msg_text_sz, true)
    else if read_sz == 0
    then (last, false)
    else (msgsnd limit msg read_sz ++ last, false)

-- The loop of `send` over what each read gives, with `buf` and `s_msg.mtext`.
unfoldable pub send_loop : ℕ → List (Option Bytes) → Bytes → Bytes → Run (List Message)
send_loop limit [] buf mtext = ok []
send_loop limit (got ∷ reads) buf mtext =
    let filled = overlay 0 (bytes_of got) buf in
    elim (copy_text mtext filled) [
      | ok text ↦
          (let more = send_loop limit reads filled text in
            let round = send_round limit (size_of got) text in
            if round.1
            then elim more [ ok ms ↦ ok (round.0 ++ ms) | exit n ↦ exit n | fault ↦ fault ]
            else ok round.0)
      | exit n ↦ exit n
      | fault ↦ fault
    ]

-- What the reads of a file give: full blocks, then what is left, then nothing.
abbrev pub reads_of : ℕ → Bytes → List (Option Bytes)
reads_of zero file = some [] ∷ []
reads_of (suc fuel) file = some (take msg_text_sz file) ∷ reads_of fuel (drop msg_text_sz file)

-- `send`, on the file if it opens; `buf` and `mtext` are what the memory holds before.
unfoldable pub send : ℕ → Option Bytes → Bytes → Bytes → Run (List Message)
send limit none buf mtext = exit 1
send limit (some file) buf mtext = send_loop limit (reads_of (length file) file) buf mtext

-- The loop of `receive` over the queue: the bytes written, and whether the loop has been left.
unfoldable pub receive_loop : List Message → Bytes → Bytes × Bool
receive_loop [] out = (out, false)
receive_loop (msg ∷ queue) out =
    let more = receive_loop queue (out ++ msg.mtext) in
    if msg.mtype == last_msg_type then (out, true) else more

-- `receive`, when the file opens.
unfoldable pub receive : Bool → List Message → Run (Bytes × Bool)
receive false queue = exit 1
receive true queue = ok (receive_loop queue [])

-- `getmsgid`, on what ftok and msgget return.
unfoldable pub getmsgid : Bool → Bool → Run (Unit {0})
getmsgid false msgget = exit 1
getmsgid true false = exit 1
getmsgid true true = ok tt

-- `main` behind a fork that succeeds: what the parent makes of the child's messages. A child that
-- ends with an error has sent nothing.
unfoldable pub main_program : ℕ → Option Bytes → Bool → Bytes → Bytes → Run (Bytes × Bool)
main_program limit src opens buf mtext = elim (send limit src buf mtext) [
  | ok queue ↦ receive opens queue
  | exit n ↦ receive opens []
  | fault ↦ fault
]
