-- ===== src/Fifo/Handshake.antt =====
-- The handshake of task3/FIFO: the client asks for a path, the server answers `Ready`.
use sem.Common.{
  ℕ, suc, ◌+◌, ◌*◌, ◌/◌, ◌%◌, ◌^◌, ◌≤◌, ◌<◌, ◌≡◌, refl, some, ◌∷◌, ◌++◌, arith, Bytes, codes,
  IsText, cstr-append, drop, length, overlay, ok, fault,
}
use sem.Fifo.Message.{SimpleMessage, encode, decode, make_fifo_name, strcpy}
use sem.Fifo.Server.{made, Started, ServerCalls, server_start}
use sem.Fifo.Client.{request, Asked, ClientCalls, client_start}

strcpy-fits :
    (dst s : Bytes) → length s < length dst → strcpy dst s ≡ ok (s ++ 0 ∷ drop (suc (length s)) dst)
strcpy-fits dst s h = ground arith

le32-sum :
    (n : ℕ)
    → n < 2 ^ 32
    → n % 256 + 256 * (n / 256 % 256) + 65536 * (n / 65536 % 256) + 16777216 * (n / 16777216 % 256)
      ≡ n
le32-sum n h = omega arith

abbrev pub server_calls : Bytes → ServerCalls
server_calls req = record {
  mkfifo = made;
  open_r = some 3;
  open_w = some 4;
  request = some req;
  open_client = some 5;
  open_src = some 6;
}

abbrev pub client_calls : Bytes → ClientCalls
client_calls answer = record {
  mkfifo = made;
  open_server = some 3;
  open_r = some 4;
  open_w = some 5;
  answer = some answer;
  open_dst = some 6;
}

module _ (pid : ℕ) (path : Bytes) (stale stale' : SimpleMessage) where
  pub request-ok :
      length path < length stale.sm_data
      → request pid path stale
        ≡ ok (record {
          sm_clientpid = pid;
          sm_data = path ++ 0 ∷ drop (suc (length path)) stale.sm_data;
        })
  unfolding request
  request-ok h = rw (strcpy-fits stale.sm_data path h)

  abbrev pub sent : SimpleMessage
  sent = record { sm_clientpid = pid; sm_data = path ++ 0 ∷ drop (suc (length path)) stale.sm_data }

  abbrev pub answered : SimpleMessage
  answered = record stale' { sm_data = codes "Ready" ++ 0 ∷ drop 6 stale'.sm_data }

  pub server_start-ok :
      pid < 2 ^ 32
      → IsText path
      → 5 < length stale'.sm_data
      → server_start (server_calls (encode sent)) stale'
        ≡ ok (record { fifo_name = make_fifo_name pid 100; answer = encode answered; path = path })
  unfolding server_start
  server_start-ok small text fits = rw (
    le32-sum pid small,
    cstr-append path (drop (suc (length path)) stale.sm_data) text,
    strcpy-fits stale'.sm_data (codes "Ready") fits,
  )

  pub client_start-ok :
      length path < length stale.sm_data
      → client_start pid path (client_calls (encode answered)) stale
        ≡ ok (record {
          fifo_name = make_fifo_name pid 100;
          asked = encode sent;
          msg = decode (overlay 0 (encode answered) (encode sent));
        })
  unfolding client_start
  client_start-ok fits = rw (strcpy-fits stale.sm_data path fits)

  -- A client that asks for a path without NUL, shorter than the 128 bytes of the message, is
  -- answered: where every system call succeeds, the server opens the client's own pipe and the very
  -- path asked for, and the client accepts the answer.
  pub handshake :
      pid < 2 ^ 32
      → IsText path
      → length path < length stale.sm_data
      → 5 < length stale'.sm_data
      → (req : SimpleMessage) × (started : Started) × (asked : Asked) × (request pid path stale
          ≡ ok req)
        × (server_start (server_calls (encode req)) stale' ≡ ok started)
        × (client_start pid path (client_calls started.answer) stale ≡ ok asked)
        × (started.path ≡ path)
        × (started.fifo_name ≡ asked.fifo_name)
  handshake small text fits fits' = (
    sent,
    record { fifo_name = make_fifo_name pid 100; answer = encode answered; path = path },
    record {
      fifo_name = make_fifo_name pid 100;
      asked = encode sent;
      msg = decode (overlay 0 (encode answered) (encode sent));
    },
    request-ok fits,
    server_start-ok small text fits',
    client_start-ok fits,
    refl,
    refl,
  )

  -- A path of 128 bytes or more overruns the message before it is sent.
  pub request-overrun : length stale.sm_data ≤ length path → request pid path stale ≡ fault
  unfolding request
  request-overrun h = ground arith
