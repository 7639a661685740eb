-- ===== src/Fifo/Client.antt =====
-- task3/FIFO/src/fifo_client.c: the handshake in `main`, and a round of the loop that receives.
use sem.Common.{
  ℕ, ◌+◌, ◌-◌, ◌^◌, Bool, true, false, Option, ◌++◌, Bytes, take, drop, get_or, overlay, cstr, same,
  ◌==◌, ltb, if◌then◌else◌, Run, ok, exit, fault, ◌>>=◌, ◌>>◌,
}
use sem.Fifo.Message.{
  SimpleMessage, encode, decode, make_fifo_name, open_path, read_bytes, strcpy, ready_msg,
  max_read_sz, prot_sz,
}
use sem.Fifo.Server.{Mkfifo, mkfifo_check}

-- `main` up to the write of the request: the path goes into the message with `strcpy`.
unfoldable pub request : ℕ → Bytes → SimpleMessage → Run SimpleMessage
request pid argv1 stale = do
  text ← strcpy stale.sm_data argv1
  ok (record { sm_clientpid = pid; sm_data = text })

-- What the client has when its loop begins.
pub record Asked : Type 0 where
  pub fifo_name : Bytes
  pub asked : Bytes
  pub msg : SimpleMessage

-- The results of the system calls that `main` makes before its loop.
pub record ClientCalls : Type 0 where
  pub mkfifo : Mkfifo
  pub open_server : Option ℕ
  pub open_r : Option ℕ
  pub open_w : Option ℕ
  pub answer : Option Bytes
  pub open_dst : Option ℕ

-- `main` up to the loop. The answer overwrites the front of the message.
unfoldable pub client_start : ℕ → Bytes → ClientCalls → SimpleMessage → Run Asked
unfolding request make_fifo_name open_path read_bytes
client_start pid argv1 calls stale = do
  let name = make_fifo_name pid 100
  mkfifo_check calls.mkfifo
  fd_server ← open_path calls.open_server
  req ← request pid argv1 stale
  fd_client ← open_path calls.open_r
  fd_client_w ← open_path calls.open_w
  got ← read_bytes calls.answer
  let msg = decode (overlay 0 got (encode req))
  if same (cstr msg.sm_data) ready_msg
      then (do
        fout ← open_path calls.open_dst
        ok (record { fifo_name = name; asked = encode req; msg = msg }))
      else exit 1

-- `Write(fout, msg.sm_data + PROT_SZ, len)`: a length beyond the array is an overrun.
unfoldable pub write_data : Bool → Bytes → ℕ → Run Bytes
write_data wrote sm_data len =
    if ltb max_read_sz len
    then fault
    else if wrote
    then ok (take len (drop prot_sz sm_data))
    else exit 1

-- The variables of the loop, the bytes written to the destination so far, and whether it still runs.
pub record Client : Type 0 where
  pub sm_data : Bytes
  pub out : Bytes
  pub running : Bool

-- `(size_t)(msg.sm_data[0])`: a char from 128 on is negative.
abbrev pub size_of_char : ℕ → ℕ
size_of_char c = if ltb c 128 then c else 2 ^ 64 + c - 256

-- One round of `while (1)`, on what `read(fd_client, …)` gives and on whether write(2) succeeds.
unfoldable pub client_round : Option Bytes → Bool → Client → Run Client
unfolding read_bytes write_data
client_round got wrote c = do
  b ← read_bytes got
  let filled = overlay 0 b c.sm_data
  let len = size_of_char (get_or filled 0 0)
  if len == max_read_sz
      then (do
        w ← write_data wrote filled len
        ok (record { sm_data = filled; out = c.out ++ w; running = true }))
      else if len == 0
      then ok (record { sm_data = filled; out = c.out; running = false })
      else (do
        w ← write_data wrote filled len
        ok (record { sm_data = filled; out = c.out ++ w; running = false }))
