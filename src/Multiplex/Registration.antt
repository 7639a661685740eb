-- ===== src/Multiplex/Registration.antt =====
-- The two parts of a registration where every call succeeds.
use sem.Common.{
  ℕ, ◌+◌, ◌-◌, ◌<◌, ◌≡◌, refl, true, Option, some, [], ◌∷◌, ◌++◌, Bytes, get_elem?,
  get_elem?-set_self, get_elem?-lt, length, take, overlay, replicate, ltb, ok, arith, All,
}
use sem.Multiplex.System.{returned, Mode, rdonly, wronly, System, word_of}
use sem.Multiplex.Server.{
  max_path, buf_sz, s_fifo_rel, s_fifo_reg, s_fifo_rsp, default_rsp, print_into, as_string, Client,
  Server, s_check_reg_request, s_mkfifo, s_open_fifo, open_client, with_words, add_client,
  s_register, register_line,
}
use sem.Multiplex.Client.{cn_fifo_rel, reg_command, cmd_sz, cn_reg, cn_open_fifo, cn_close_fifo}
use sem.Multiplex.Names.{IsNameChar, base_name-path, reg_line, tokens-reg_line, length-reg_line}
use sem.Multiplex.Entry.{
  with_client, client_at-ok, put_client-ok, named, second, third, second_range,
  check_words-registers,
}

pub print_into-ok : (size : ℕ) (text : Bytes) → length text < size → print_into size text ≡ ok text
unfolding print_into
print_into-ok size text h = let e : ltb (length text) size ≡ true = ground arith in rw e refl

-- A system whose calls on fifos succeed; `fd` gives the descriptors.
module _ (sys : System) (fd : Bytes → Mode → ℕ)
    (makes : (path : Bytes) → sys.mkfifo path ≡ returned 0)
    (opens : (path : Bytes) (mode : Mode) → sys.opens path mode ≡ returned (fd path mode)) where
  s_mkfifo-ok : (name : Bytes) → length name < 200 → s_mkfifo sys name ≡ ok 0
  unfolding s_mkfifo
  s_mkfifo-ok name h =
      rw
        (print_into-ok max_path (s_fifo_rel ++ name) (omega (arith, h)), makes (s_fifo_rel ++ name))
        refl

  s_open_fifo-ok :
      (name : Bytes) (mode : Mode)
      → length name < 200
      → s_open_fifo sys name mode ≡ ok (some (fd (s_fifo_rel ++ name) mode))
  unfolding s_open_fifo
  s_open_fifo-ok name mode h =
      rw
        (
          print_into-ok max_path (s_fifo_rel ++ name) (omega (arith, h)),
          opens (s_fifo_rel ++ name) mode,
        )
        refl

  abbrev pub ends : Client → Option ℕ × Option ℕ
  ends cn =
      (some (fd (s_fifo_rel ++ cn.fifo_tx) rdonly), some (fd (s_fifo_rel ++ cn.fifo_rx) wronly))

  open_client-ok :
      (cn : Client)
      → length cn.fifo_tx < 200
      → length cn.fifo_rx < 200
      → open_client sys cn ≡ ok (ends cn)
  unfolding open_client
  open_client-ok cn h k =
      rw
        (
          s_mkfifo-ok cn.fifo_tx h,
          s_mkfifo-ok cn.fifo_rx k,
          s_open_fifo-ok cn.fifo_tx rdonly h,
          s_open_fifo-ok cn.fifo_rx rdonly k,
          s_open_fifo-ok cn.fifo_tx wronly h,
          s_open_fifo-ok cn.fifo_rx wronly k,
        )
        refl

  -- The state behind a registration.
  abbrev pub joined : Server → ℕ → Client → Server
  joined s i cn = record (with_client s i cn) {
    watched = s.watched ++ record { fd = 0; word = cn.word } ∷ [];
    responses = s.responses ++ default_rsp;
  }

  s_register-ok :
      (s : Server) (i : ℕ) (cn : Client)
      → get_elem? s.clients i ≡ some cn
      → length cn.fifo_tx < 200
      → length cn.fifo_rx < 200
      → sys.writes s.rsp_fd_w ≡ true
      → sys.epoll_add s.watched 0 ≡ true
      → s_register sys i s ≡ ok (joined s i (with_words cn (ends cn)))
  unfolding s_register add_client
  s_register-ok s i cn e h k w p =
      rw
        (
          client_at-ok s i e,
          open_client-ok cn h k,
          w,
          put_client-ok s i (with_words cn (ends cn)) (get_elem?-lt s.clients i e),
          p,
        )
        refl

  -- A server that has room for a client.
  module _ (s : Server) (c : Client) (there : get_elem? s.clients s.client_max ≡ some c)
      (writes : sys.writes s.rsp_fd_w ≡ true) (first_watch : sys.epoll_add s.watched 0 ≡ true) where
    pub register_line-ok :
        (tx rx : Bytes)
        → All IsNameChar tx
        → All IsNameChar rx
        → length tx < 200
        → length rx < 200
        → register_line sys (reg_line tx rx) s
          ≡ ok (
              joined
                (record (third s c there tx rx) { client_max = s.client_max + 1 })
                s.client_max
                (with_words (named c tx rx) (ends (named c tx rx))))
    unfolding register_line s_check_reg_request
    register_line-ok tx rx h k l m =
        let t : Server = record (third s c there tx rx) { client_max = s.client_max + 1 } in
        let n : s.client_max + 1 - 1 ≡ s.client_max = omega arith in
        let r = second_range s c there tx rx in
        rw
          (
            print_into-ok buf_sz (reg_line tx rx) (omega (arith, length-reg_line tx rx, l, m)),
            tokens-reg_line tx rx h k,
            check_words-registers s c there (cn_fifo_rel ++ tx) (cn_fifo_rel ++ rx) tx rx
                (base_name-path tx h (omega (arith, l))) (base_name-path rx k (omega (arith, m))),
            n,
            s_register-ok t s.client_max (named c tx rx)
                (get_elem?-set_self (second s c there tx rx).clients s.client_max (named c tx rx) r)
                l m writes first_watch,
          )
          refl

-- What the client reads of the server's answer.
answer_read : as_string (overlay 0 (take cmd_sz default_rsp) (replicate cmd_sz 0)) ≡ ok default_rsp
unfolding as_string
answer_read = refl

module _ (sys : System) (fd : Bytes → Mode → ℕ)
    (opens : (path : Bytes) (mode : Mode) → sys.opens path mode ≡ returned (fd path mode)) where
  pub cn_open_fifo-ok :
      (name : Bytes) (mode : Mode)
      → length name < 200
      → cn_open_fifo sys name mode ≡ ok (some (fd (cn_fifo_rel ++ name) mode))
  unfolding cn_open_fifo
  cn_open_fifo-ok name mode h =
      rw
        (
          print_into-ok max_path (cn_fifo_rel ++ name) (omega (arith, h)),
          opens (cn_fifo_rel ++ name) mode,
        )
        refl

  -- The client's part: it writes its command, reads the server's answer, and closes both fifos.
  pub cn_reg-ok :
      (tx rx : Bytes)
      → ((n : ℕ) → sys.closes n ≡ true)
      → length (reg_command tx rx) < cmd_sz
      → cn_reg sys tx rx default_rsp ≡ ok (reg_command tx rx)
  unfolding cn_reg cn_close_fifo
  cn_reg-ok tx rx closes h =
      rw
        (
          cn_open_fifo-ok s_fifo_reg wronly (omega arith),
          cn_open_fifo-ok s_fifo_rsp rdonly (omega arith),
          print_into-ok cmd_sz (reg_command tx rx) h,
          answer_read,
          closes (word_of (some (fd (cn_fifo_rel ++ s_fifo_reg) wronly))),
          closes (word_of (some (fd (cn_fifo_rel ++ s_fifo_rsp) rdonly))),
        )
        refl
