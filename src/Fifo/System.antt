-- ===== src/Fifo/System.antt =====
-- The loops of task3/FIFO/src/fifo_server.c and fifo_client.c side by side. The pipe is the bytes in
-- flight: a write of up to 128 bytes is atomic, a read takes what is there, 128 bytes at most, and
-- waits while the pipe is empty. It never reports the end of the pipe, since the client holds the
-- write end `fd_client_w` open itself.
pub mod Stream
pub mod Rounds
pub mod Invariant
pub mod Transfer
use sem.Common.{ℕ, ◌≡◌, ◌≢◌, Bool, true, false, some, [], ◌++◌, Bytes, take, drop, Run, ok}
use sem.Fifo.Message.{max_read_sz, msg_data_sz}
use sem.Fifo.Server.{Server, server_round}
use sem.Fifo.Client.{Client, client_round}

-- `src` is what the server has not read yet of the file.
pub record World : Type 0 where
  pub src : Bytes
  pub server : Server
  pub pipe : Bytes
  pub client : Client

-- The server's round, with every call a success.
unfoldable pub serve : World → World
unfolding server_round
serve w =
    let (s, sent) = server_round (some (take max_read_sz w.src)) w.server in
    record w { src = drop max_read_sz w.src; server = s; pipe = w.pipe ++ sent }

pub data Step : World → World → Type 0 where
  send : {w : World} → w.server.running ≡ true → Step w (serve w)
  receive :
      {w : World} {c : Client}
      → w.client.running ≡ true
      → w.pipe ≢ []
      → client_round (some (take msg_data_sz w.pipe)) true w.client ≡ ok c
      → Step w (record w { pipe = drop msg_data_sz w.pipe; client = c })

-- The start of the loops, whatever the handshake left in the two buffers.
abbrev pub begin : Bytes → Bytes → Bytes → World
begin file server_data client_data = record {
  src = file;
  server = record { sm_data = server_data; running = true };
  pipe = [];
  client = record { sm_data = client_data; out = []; running = true };
}

pub data Reach (start : World) : World → Type 0 where
  here : Reach start start
  later : {w v : World} → Reach start w → Step w v → Reach start v
