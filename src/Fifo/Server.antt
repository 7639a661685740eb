-- ===== src/Fifo/Server.antt =====
-- task3/FIFO/src/fifo_server.c: the handshake of `GetStarted` and `main`, and a round of the loop
-- that sends the file.
use sem.Common.{
  ℕ, ◌+◌, ◌-◌, ◌%◌, ◌^◌, Bool, true, false, Option, none, some, [], Bytes, take, set, length,
  overlay, cstr, ◌==◌, if◌then◌else◌, Run, ok, exit, ◌>>=◌, ◌>>◌,
}
use sem.Fifo.Message.{
  SimpleMessage, encode, decode, make_fifo_name, open_path, read_bytes, strcpy, ready_msg,
  max_read_sz, prot_sz,
}

-- What mkfifo(3) did: made the file, found one (EEXIST), or failed otherwise.
pub data Mkfifo : Type 0 where
  made exists failed : Mkfifo

abbrev pub mkfifo_check : Mkfifo → Run (Unit {0})
mkfifo_check Mkfifo.failed = exit 1
mkfifo_check _ = ok tt

-- What `GetStarted` leaves behind: the client's pipe, what was written into it, and the path asked
-- for.
pub record Started : Type 0 where
  pub fifo_name : Bytes
  pub answer : Bytes
  pub path : Bytes

-- `GetStarted`, on the bytes of the request and on what open(2) of the client's pipe returns. The
-- answer is an automatic variable: `stale` holds what its fields hold before.
unfoldable pub get_started : Option Bytes → Option ℕ → SimpleMessage → Run Started
unfolding make_fifo_name open_path read_bytes
get_started request client_fd stale = do
  msg ← read_bytes request
  let name = make_fifo_name (decode msg).sm_clientpid 100
  fd ← open_path client_fd
  text ← strcpy stale.sm_data ready_msg
  ok (record {
    fifo_name = name;
    answer = encode (record stale { sm_data = text });
    path = cstr (decode msg).sm_data;
  })

-- The results of the system calls that `main` makes before its loop.
pub record ServerCalls : Type 0 where
  pub mkfifo : Mkfifo
  pub open_r : Option ℕ
  pub open_w : Option ℕ
  pub request : Option Bytes
  pub open_client : Option ℕ
  pub open_src : Option ℕ

-- `main` up to the loop; `open_src` is what open(2) of the path asked for returns.
unfoldable pub server_start : ServerCalls → SimpleMessage → Run Started
unfolding get_started
server_start calls stale = do
  mkfifo_check calls.mkfifo
  fd_server ← open_path calls.open_r
  fd_server_w ← open_path calls.open_w
  started ← get_started calls.request calls.open_client stale
  fin ← open_path calls.open_src
  ok started

-- The variables of the loop: `msg.sm_data`, and whether the loop still runs.
pub record Server : Type 0 where
  pub sm_data : Bytes
  pub running : Bool

-- `read_sz`, a size_t: the -1 of a failed read is its largest value.
abbrev pub size_read : Option Bytes → ℕ
size_read none = 2 ^ 64 - 1
size_read (some b) = length b

abbrev pub bytes_read : Option Bytes → Bytes
bytes_read none = []
bytes_read (some b) = b

-- One round of `while (1)`, on what `read(fin, msg.sm_data + PROT_SZ, MAX_READ_SZ)` gives; the
-- second result is what the round writes into the client's pipe.
unfoldable pub server_round : Option Bytes → Server → Server × Bytes
server_round got s =
    let read_sz = size_read got in
    let filled = overlay prot_sz (bytes_read got) s.sm_data in
    let framed = set filled 0 (read_sz % 256) in
    let sent = take ((read_sz + prot_sz) % 2 ^ 64) framed in
    if read_sz == max_read_sz
    then (record { sm_data = framed; running = true }, sent)
    else if read_sz == 0
    then (record { sm_data = filled; running = false }, [])
    else (record { sm_data = framed; running = false }, sent)
