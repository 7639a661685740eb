-- ===== src/Multiplex/RoundTrip.antt =====
-- The registration of a client, from the paths it prints to the answer it reads.
use sem.Common.{
  ℕ, ◌+◌, ◌<◌, ◌≡◌, refl, ap, ◌∙◌, true, some, ◌++◌, Bytes, codes, decimal, decimal-length,
  power_of_ten, get_elem?, get_elem?-set_self, length, length-append, replicate, Run, ok, ◌>>=◌,
  arith,
}
use sem.Multiplex.System.{returned, Mode, wronly, System, word_of}
use sem.Multiplex.Server.{max_path, buf_sz, s_fifo_rel, default_rsp, Client, Server, register_round}
use sem.Multiplex.Client.{cn_fifo_rel, cn_mkfifo_path, reg_command, cn_reg}
use sem.Multiplex.Names.{
  fifo_name, fifo_name-All, reg_line, reg_command-line, reg_line-IsText, length-reg_line,
}
use sem.Multiplex.Round.{register_round-line}
use sem.Multiplex.Entry.{third_range}
use sem.Multiplex.Registration.{print_into-ok, register_line-ok, cn_reg-ok}

-- A pid has ten digits at most.
pub fifo_name-length :
    (pid : ℕ) (suf : Bytes)
    → pid < power_of_ten 10
    → length suf < 10
    → length (fifo_name pid suf) < 30
fifo_name-length pid suf h l =
    omega (arith, decimal-length 9 pid h, length-append (decimal pid) (codes "_" ++ suf), l)

pub cn_mkfifo_path-ok :
    (pid : ℕ) (suf : Bytes)
    → pid < power_of_ten 10
    → length suf < 10
    → cn_mkfifo_path pid suf ≡ ok (cn_fifo_rel ++ fifo_name pid suf)
unfolding cn_mkfifo_path
cn_mkfifo_path-ok pid suf h l =
    print_into-ok max_path (cn_fifo_rel ++ fifo_name pid suf)
      (omega (arith, fifo_name-length pid suf h l))

abbrev tx_name : ℕ → Bytes
tx_name pid = fifo_name pid (codes "tx")

abbrev rx_name : ℕ → Bytes
rx_name pid = fifo_name pid (codes "rx")

-- What the two programs agree on behind the registration of the client `pid`, whose paths are `tx`
-- and `rx`, by a server that goes from `s` to `t`.
pub record IsRegistered (pid : ℕ) (tx rx : Bytes) (fd : Bytes → Mode → ℕ) (s t : Server)
    : Type 0 where
  pub entry :
      get_elem? t.clients s.client_max
      ≡ some (record {
        fifo_tx = fifo_name pid (codes "tx");
        fifo_rx = fifo_name pid (codes "rx");
        is_active = 1;
        word = word_of (some (fd (s_fifo_rel ++ fifo_name pid (codes "rx")) wronly));
      })
  pub one_more : t.client_max ≡ s.client_max + 1
  pub answered : t.responses ≡ s.responses ++ default_rsp
  pub clear : t.request ≡ replicate buf_sz 0

module _ (sys : System) (fd : Bytes → Mode → ℕ)
    (makes : (path : Bytes) → sys.mkfifo path ≡ returned 0)
    (opens : (path : Bytes) (mode : Mode) → sys.opens path mode ≡ returned (fd path mode))
    (closes : (n : ℕ) → sys.closes n ≡ true) where
  -- Where every call on fifos succeeds, the command of a client, whose pid has at most ten digits, makes
  -- its entry in a server whose buffer is clear, that has room for a client, whose answer can be
  -- written and whose epoll set takes the descriptor 0: the two names, without the
  -- directories, and in the event's word the writing end of `rx` alone. The server answers, its
  -- buffer is clear again, and the client that reads the answer has registered.
  pub client_registers :
      (pid : ℕ) (s : Server) (c : Client)
      → pid < power_of_ten 10
      → get_elem? s.clients s.client_max ≡ some c
      → s.request ≡ replicate buf_sz 0
      → sys.writes s.rsp_fd_w ≡ true
      → sys.epoll_add s.watched 0 ≡ true
      → (tx : Bytes) × (rx : Bytes) × (t : Server) × (cn_mkfifo_path pid (codes "tx") ≡ ok tx)
        × (cn_mkfifo_path pid (codes "rx") ≡ ok rx)
        × (register_round sys (reg_command tx rx) s ≡ ok t)
        × IsRegistered pid tx rx fd s t
        × (cn_reg sys tx rx default_rsp ≡ ok (reg_command tx rx))
  client_registers pid s c p there clear writes watch =
      let tx = tx_name pid in
      let rx = rx_name pid in
      let a = fifo_name-All pid (codes "tx") (omega arith) in
      let b = fifo_name-All pid (codes "rx") (omega arith) in
      let l = fifo_name-length pid (codes "tx") p (omega arith) in
      let m = fifo_name-length pid (codes "rx") p (omega arith) in
      let n = length-reg_line tx rx in
      let e = reg_command-line tx rx in
      let k = length-append (reg_line tx rx) (codes "\n") in
      (
        cn_fifo_rel ++ tx,
        cn_fifo_rel ++ rx,
        _,
        cn_mkfifo_path-ok pid (codes "tx") p (omega arith),
        cn_mkfifo_path-ok pid (codes "rx") p (omega arith),
        ap (λ (x : Bytes). register_round sys x s) e
            ∙ register_round-line sys (reg_line tx rx) s (reg_line-IsText tx rx a b)
                (omega (arith, n, l, m)) clear
            ∙ ap (λ (r : Run Server). r >>= λ s'. ok (record s' { request = replicate buf_sz 0 }))
                (register_line-ok sys fd makes opens s c there writes watch tx rx a b
                  (omega (arith, l)) (omega (arith, m))),
        record {
          entry = get_elem?-set_self _ s.client_max _ (third_range s c there tx rx);
          one_more = refl;
          answered = refl;
          clear = refl;
        },
        cn_reg-ok sys fd opens (cn_fifo_rel ++ tx) (cn_fifo_rel ++ rx) closes
            (omega (arith, n, k, l, m, ap length e)),
      )
