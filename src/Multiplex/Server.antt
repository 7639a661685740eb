-- ===== src/Multiplex/Server.antt =====
-- task7/multiplex-io/server: src/s_interact.c and the registration of src/s_main.c.
use sem.Common.{
  ℕ, ◌+◌, ◌-◌, ◌*◌, Bool, true, false, Option, none, some, List, [], ◌∷◌, ◌++◌, Bytes, codes, cstr,
  take, length, set, get_elem?, replicate, overlay, same, tokens, ◌==◌, ltb, if◌then◌else◌, Run, ok,
  exit, fault, ensure, ◌>>=◌, ◌>>◌,
}
use sem.Multiplex.System.{
  Reply, returned, eexist, failed, Mode, rdonly, wronly, Watch, System, word_of,
}

abbrev pub max_path : ℕ
max_path = 256

abbrev pub max_request : ℕ
max_request = 2 * max_path

abbrev pub max_client : ℕ
max_client = 64

abbrev pub buf_sz : ℕ
buf_sz = 1024

abbrev pub s_fifo_rel : Bytes
s_fifo_rel = codes "../channels/"

abbrev pub s_fifo_reg : Bytes
s_fifo_reg = codes "server_reg"

abbrev pub s_fifo_rsp : Bytes
s_fifo_rsp = codes "server_rsp"

abbrev pub default_rsp : Bytes
default_rsp = codes "ASK\n"

-- sprintf into an array of `size` bytes.
unfoldable pub print_into : ℕ → Bytes → Run Bytes
print_into size text = if ltb (length text) size then ok text else fault

-- A buffer read as a C string: without a NUL the reader leaves it.
unfoldable pub as_string : Bytes → Run Bytes
as_string buf = if ltb (length (cstr buf)) (length buf) then ok (cstr buf) else fault

abbrev pub made_fifo : Reply → Run ℕ
made_fifo (returned n) = ok 0
made_fifo eexist = ok 0
made_fifo failed = exit 1

-- The result of an open that is checked so; -1 with EEXIST goes through.
abbrev pub opened_fifo : Reply → Run (Option ℕ)
opened_fifo (returned fd) = ok (some fd)
opened_fifo eexist = ok none
opened_fifo failed = exit 1

unfoldable pub s_mkfifo : System → Bytes → Run ℕ
s_mkfifo sys fifo_name = do
  path ← print_into max_path (s_fifo_rel ++ fifo_name)
  made_fifo (sys.mkfifo path)

unfoldable pub s_open_fifo : System → Bytes → Mode → Run (Option ℕ)
s_open_fifo sys fifo_name flags = do
  path ← print_into max_path (s_fifo_rel ++ fifo_name)
  opened_fifo (sys.opens path flags)

-- `s_unlink_fifo`, on whether unlink succeeds.
unfoldable pub s_unlink_fifo : (Bytes → Bool) → Bytes → Run ℕ
s_unlink_fifo unlink fifo_name = do
  path ← print_into max_path (s_fifo_rel ++ fifo_name)
  ensure (unlink path) 1
  ok 0

-- `s_scan_request`: the buffer of zeros with what read gives, or NULL.
unfoldable pub s_scan_request : System → ℕ → Option Bytes
s_scan_request sys fd = elim (sys.read fd) [
  | none ↦ none
  | some got ↦ some (overlay 0 (take max_request got) (replicate max_request 0))
]

-- `Client`; `word` is the memory that `event.data.fd` and `event.data.u32` share.
pub record Client : Type 0 where
  pub fifo_tx : Bytes
  pub fifo_rx : Bytes
  pub is_active : ℕ
  pub word : ℕ

-- The server's variables, the epoll set, what has been written to the response fifo, and the buffer
-- of `s_register_clients`.
pub record Server : Type 0 where
  pub clients : List Client
  pub client_max : ℕ
  pub rsp_fd_w : ℕ
  pub watched : List Watch
  pub responses : Bytes
  pub request : Bytes

-- A client of `s_prepare`'s loop.
abbrev pub no_client : Client
no_client = record { fifo_tx = []; fifo_rx = []; is_active = 0; word = word_of none }

-- The four fifos of `s_prepare`, in its order: both are made, opened for reading, opened for writing.
unfoldable pub s_prepare : System → Run Server
s_prepare sys = do
  made_reg ← s_mkfifo sys s_fifo_reg
  made_rsp ← s_mkfifo sys s_fifo_rsp
  reg_r ← s_open_fifo sys s_fifo_reg rdonly
  rsp_r ← s_open_fifo sys s_fifo_rsp rdonly
  reg_w ← s_open_fifo sys s_fifo_reg wronly
  rsp_w ← s_open_fifo sys s_fifo_rsp wronly
  ok (record {
    clients = replicate max_client no_client;
    client_max = 0;
    rsp_fd_w = word_of rsp_w;
    watched = [];
    responses = [];
    request = replicate buf_sz 0;
  })

-- `Clients[i]`, read and written; an index behind the array is undefined.
unfoldable pub client_at : Server → ℕ → Run Client
client_at s i = elim (get_elem? s.clients i) [ none ↦ fault | some c ↦ ok c ]

unfoldable pub put_client : Server → ℕ → Client → Run Server
put_client s i c =
    if ltb i (length s.clients) then ok (record s { clients = set s.clients i c }) else fault

-- `strrchr(p, '/') + 1`, which is no text where there is no slash.
unfoldable pub after_slash : Bytes → Option Bytes
after_slash [] = none
after_slash (c ∷ s) = elim (after_slash s) [
  | some t ↦ some t
  | none ↦ if c == b'/' then some s else none
]

abbrev pub base_name : Bytes → Run Bytes
base_name p = elim (after_slash p) [ none ↦ fault | some t ↦ print_into max_path t ]

-- One round of the loop of `s_check_reg_request`; `none` is the return of -1, which leaves what the
-- rounds before have written.
unfoldable pub check_word : ℕ → Bytes → Server → Run (Bool × Server)
check_word i p s =
    if i == 0
    then ok (same p (codes "REGISTER"), s)
    else if i == 1
    then (do
      c ← client_at s s.client_max
      name ← base_name p
      s' ← put_client s s.client_max (record c { fifo_tx = name })
      ok (true, s'))
    else if i == 2
    then (do
      c ← client_at s s.client_max
      name ← base_name p
      s' ← put_client s s.client_max (record c { fifo_rx = name })
      ok (true, s'))
    else ok (false, s)

unfoldable pub check_words : ℕ → List Bytes → Server → Run (Bool × Server)
check_words i [] s = do
  c ← client_at s s.client_max
  s' ← put_client s s.client_max (record c { is_active = 1 })
  ok (true, record s' { client_max = s.client_max + 1 })
check_words i (p ∷ ps) s =
    check_word i p s >>= λ r. elim r.0 [ true ↦ check_words (i + 1) ps r.1 | false ↦ ok r ]

-- `s_check_reg_request`; the result tells 0 from -1.
unfoldable pub s_check_reg_request : Bytes → Server → Run (Bool × Server)
s_check_reg_request request s = do
  cmd ← print_into buf_sz request
  check_words 0 (tokens (codes " ") cmd) s

-- The first half of `s_register`: both fifos are made and opened for reading and for writing; it goes
-- on with the reading end of one and the writing end of the other.
unfoldable pub open_client : System → Client → Run (Option ℕ × Option ℕ)
open_client sys cn = do
  made_tx ← s_mkfifo sys cn.fifo_tx
  made_rx ← s_mkfifo sys cn.fifo_rx
  tx_r ← s_open_fifo sys cn.fifo_tx rdonly
  rx_r ← s_open_fifo sys cn.fifo_rx rdonly
  tx_w ← s_open_fifo sys cn.fifo_tx wronly
  rx_w ← s_open_fifo sys cn.fifo_rx wronly
  ok (tx_r, rx_w)

-- The words that are stored one after the other in the memory of the event's data.
abbrev pub with_words : Client → Option ℕ × Option ℕ → Client
with_words cn fds = record (record cn { word = word_of fds.0 }) { word = word_of fds.1 }

-- The second half: EPOLL_CTL_ADD is called on the descriptor 0.
unfoldable pub add_client : System → ℕ → Client → Server → Run Server
add_client sys client_num cn s = do
  ensure (sys.writes s.rsp_fd_w) 1
  s' ← put_client s client_num cn
  ensure (sys.epoll_add s.watched 0) 1
  ok (record s' {
    watched = s.watched ++ record { fd = 0; word = cn.word } ∷ [];
    responses = s.responses ++ default_rsp;
  })

unfoldable pub s_register : System → ℕ → Server → Run Server
s_register sys client_num s = do
  cn ← client_at s client_num
  fds ← open_client sys cn
  add_client sys client_num (with_words cn fds) s

-- The request of a round that is not empty, its last character replaced by a NUL.
unfoldable pub register_line : System → Bytes → Server → Run Server
register_line sys line s = do
  r ← s_check_reg_request line s
  elim r.0 [ true ↦ s_register sys (r.1.client_max - 1) r.1 | false ↦ ok r.1 ]

-- A round of the loop of `s_register_clients`, on what read gives.
unfoldable pub register_round : System → Bytes → Server → Run Server
register_round sys got s = do
  let filled = overlay 0 (take buf_sz got) s.request
  text ← as_string filled
  if length text == 0 then ok (record s { request = filled }) else (do
    let n = length text - 1
    s' ← register_line sys (take n text) s
    ok (record s' { request = overlay 0 (replicate n 0) (set filled n 0) }))

-- The loop, over what the reads give; a list that is used up leaves the server at its read.
unfoldable pub s_register_clients : System → List Bytes → Server → Run Server
s_register_clients sys [] s = ok s
s_register_clients sys (got ∷ gots) s = register_round sys got s >>= s_register_clients sys gots

-- `main`
unfoldable pub main : System → List Bytes → Run Server
main sys gots = s_prepare sys >>= s_register_clients sys gots
