-- ===== src/Multiplex/Client.antt =====
-- task7/multiplex-io/client: src/cn_interact.c and src/cn_main.c.
use sem.Common.{
  ℕ, zero, suc, Option, none, some, [], ◌++◌, Bytes, codes, take, replicate, overlay, decimal, same,
  Run, ok, exit, fault, ensure, ◌>>=◌, ◌>>◌,
}
use sem.Multiplex.System.{Mode, rdonly, wronly, System, word_of}
use sem.Multiplex.Server.{
  max_path, s_fifo_reg, s_fifo_rsp, default_rsp, print_into, as_string, opened_fifo,
}

abbrev pub cn_fifo_rel : Bytes
cn_fifo_rel = codes "../../server/channels/"

abbrev pub cmd_sz : ℕ
cmd_sz = 1024

-- `cn_mkfifo_path`
unfoldable pub cn_mkfifo_path : ℕ → Bytes → Run Bytes
cn_mkfifo_path pid suf =
    print_into max_path (cn_fifo_rel ++ (codes "fifo" ++ (decimal pid ++ (codes "_" ++ suf))))

unfoldable pub cn_open_fifo : System → Bytes → Mode → Run (Option ℕ)
cn_open_fifo sys fifo_name flags = do
  path ← print_into max_path (cn_fifo_rel ++ fifo_name)
  opened_fifo (sys.opens path flags)

unfoldable pub cn_close_fifo : System → ℕ → Run ℕ
cn_close_fifo sys fd = do ensure (sys.closes fd) 1; ok 0

-- The command of `cn_reg`.
abbrev pub reg_command : Bytes → Bytes → Bytes
reg_command fifo_tx fifo_rx =
    codes "REGISTER " ++ (fifo_tx ++ (codes " " ++ (fifo_rx ++ codes "\n")))

-- `cn_reg`, on what it reads as a response; the result is what it has written for the server.
unfoldable pub cn_reg : System → Bytes → Bytes → Bytes → Run Bytes
cn_reg sys fifo_tx fifo_rx got = do
  reg ← cn_open_fifo sys s_fifo_reg wronly
  rsp ← cn_open_fifo sys s_fifo_rsp rdonly
  cmd ← print_into cmd_sz (reg_command fifo_tx fifo_rx)
  response ← as_string (overlay 0 (take cmd_sz got) (replicate cmd_sz 0))
  ensure (same response default_rsp) 1
  closed_reg ← cn_close_fifo sys (word_of reg)
  closed_rsp ← cn_close_fifo sys (word_of rsp)
  ok cmd

-- The loop of `cn_work` over its events, each of which has the descriptor that was registered.
unfoldable pub read_events : System → ℕ → ℕ → Run (Unit {0})
read_events sys fd zero = ok tt
read_events sys fd (suc n) = elim (sys.read fd) [ none ↦ exit 1 | some got ↦ read_events sys fd n ]

-- `cn_work`, on the line that fgets reads and the number of events that epoll_wait gives; the result
-- is what has been written to the server.
unfoldable pub cn_work : System → Bytes → Bytes → Option Bytes → ℕ → Run Bytes
cn_work sys fifo_tx fifo_rx line count = do
  fd_tx ← cn_open_fifo sys fifo_tx wronly
  fd_rx ← cn_open_fifo sys fifo_rx rdonly
  ensure (sys.epoll_add [] 0) 1
  elim line [
    | none ↦ fault
    | some request ↦ read_events sys (word_of fd_tx) count >>= λ done. ok request
  ]

-- `main`, with the pid: what it writes to register, and to be served.
unfoldable pub client_main : System → ℕ → Bytes → Option Bytes → ℕ → Run (Bytes × Bytes)
client_main sys pid got line count = do
  fifo_tx ← cn_mkfifo_path pid (codes "tx")
  fifo_rx ← cn_mkfifo_path pid (codes "rx")
  cmd ← cn_reg sys fifo_tx fifo_rx got
  request ← cn_work sys fifo_tx fifo_rx line count
  ok (cmd, request)
