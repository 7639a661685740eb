-- ===== src/Multiplex/Tests.antt =====
-- A small system, and one client.
use sem.Common.{
  ℕ, ◌≤◌, ◌≡◌, ◌≢◌, refl, ap, ◌∙◌, Bool, true, false, not, ◌||◌, some, none, List, [], ◌∷◌, ◌++◌,
  Bytes, codes, tokens, tokens_from, tokens_word, is_in, length, replicate, same, ◌==◌,
  if◌then◌else◌, ok, fault, arith, All, inr, digits,
}
use sem.Multiplex.System.{returned, Watch, System, Mode, Reply, wronly, rdonly}
use sem.Multiplex.Server.{
  default_rsp, no_client, Server, print_into, as_string, s_mkfifo, s_open_fifo, s_prepare,
  client_at, put_client, after_slash, check_word, check_words, s_check_reg_request, open_client,
  add_client, s_register, register_line, register_round, s_register_clients, main, opened_fifo,
}
use sem.Multiplex.Work.{s_processing_request}
use sem.Multiplex.Client.{cn_open_fifo, cn_fifo_rel, cn_mkfifo_path, reg_command, cn_reg}
use sem.Multiplex.Bounds.{main-bounds}
use sem.Multiplex.RoundTrip.{IsRegistered, client_registers}
use sem.Multiplex.Collision.{two_commands-lost}
use sem.Multiplex.Meeting.{same_fifo, IsPlain}
use sem.Multiplex.Answers.{reads, request_outcomes}

abbrev has_fd : List Watch → ℕ → Bool
has_fd [] fd = false
has_fd (x ∷ w) fd = (x.fd == fd) || has_fd w fd

has_fd-append : (before after : List Watch) (x : Watch) → has_fd (before ++ x ∷ after) x.fd ≡ true
has_fd-append [] after x = ground arith
has_fd-append (y ∷ before) after x = ground (arith, has_fd-append before after x)

abbrev kernel : System
kernel = record {
  mkfifo = λ path. returned 0;
  opens = λ path mode. returned (length path);
  read =
      λ fd. if fd == 7 then some (codes "GET /x") else if fd == 8 then some (codes "GET") else none;
  writes = λ fd. true;
  closes = λ fd. true;
  epoll_add = λ w fd. not (has_fd w fd);
}

again :
    (before after : List Watch) (x : Watch) → kernel.epoll_add (before ++ x ∷ after) x.fd ≡ false
again before after x = ap not (has_fd-append before after x)

abbrev ready : Server
ready = record {
  clients = replicate 64 no_client;
  client_max = 0;
  rsp_fd_w = 22;
  watched = [];
  responses = [];
  request = replicate 1024 0;
}

main-bounds_example : (1 ≤ 1) × (◌≡◌ {A = ℕ} 1 1)
unfolding s_prepare s_mkfifo s_open_fifo print_into as_string client_at put_client after_slash
    check_word check_words s_check_reg_request open_client add_client s_register register_line
    register_round s_register_clients main tokens_from
main-bounds_example =
    main-bounds kernel again (codes "HELLO\n" ∷ codes "REGISTER /a/tx /a/rx\n" ∷ []) refl

client_registers_example :
    (tx : Bytes) × (rx : Bytes) × (t : Server) × (cn_mkfifo_path 42 (codes "tx") ≡ ok tx)
    × (cn_mkfifo_path 42 (codes "rx") ≡ ok rx)
    × (register_round kernel (reg_command tx rx) ready ≡ ok t)
    × IsRegistered 42 tx rx (λ path mode. length path) ready t
    × (cn_reg kernel tx rx default_rsp ≡ ok (reg_command tx rx))
client_registers_example =
    client_registers kernel (λ path mode. length path) (λ path. refl) (λ path mode. refl)
      (λ n. refl) 42 ready no_client (omega arith) refl refl refl refl

two_commands-lost_example :
    (t : Server) × (register_round kernel
        (reg_command (cn_fifo_rel ++ codes "fifo1_tx") (cn_fifo_rel ++ codes "fifo1_rx")
          ++ reg_command (cn_fifo_rel ++ codes "fifo2_tx") (cn_fifo_rel ++ codes "fifo2_rx"))
        ready
      ≡ ok t)
    × (t.client_max ≡ 0)
    × (t.responses ≡ [])
    × (t.watched ≡ [])
    × (t.request ≡ replicate 1024 0)
two_commands-lost_example =
    two_commands-lost kernel ready no_client (codes "fifo1_tx") (codes "fifo1_rx")
      (codes "fifo2_tx") (codes "fifo2_rx") refl refl (omega arith) (omega arith) (omega arith)
      (omega arith) (omega arith) (omega arith) (omega arith) (omega arith)

request_outcomes_example :
    (s_processing_request (reads kernel (codes "GET" ++ b' ' ∷ (codes "/x" ++ codes " HTTP/1.1"))) 7
      ≡ ok (some (7, codes "Hello!")))
    × (s_processing_request (reads kernel (codes "GET")) 7 ≡ fault)
    × (s_processing_request (reads kernel []) 7 ≡ fault)
request_outcomes_example =
    request_outcomes kernel 7 (codes "GET") (codes "/x") (codes " HTTP/1.1") (omega arith)
      (omega arith) (omega arith) ((λ e. cc), (refl, (refl, (refl, tt))))
      ((λ e. cc), (refl, (refl, tt))) (inr (codes "HTTP/1.1", refl)) (omega arith)

-- Paths are walked word by word.
abbrev back : List Bytes → List Bytes
back [] = []
back (n ∷ d) = d

abbrev walk : List Bytes → List Bytes → List Bytes
walk d [] = d
walk d (w ∷ ws) = walk (if same w (codes "..") then back d else w ∷ d) ws

abbrev at : List Bytes → Bytes → List Bytes
at d path = walk d (tokens (codes "/") path)

up_law : (d : List Bytes) (n s : Bytes) → at (n ∷ d) (codes "../" ++ s) ≡ at d s
up_law d n s =
    ap (walk (n ∷ d))
      (tokens_word (codes "/") (codes "..") s b'/' ((λ e. cc), (refl, (refl, tt))) refl)

no_slash :
    (n : Bytes) → All (λ c. (c ≢ b'/') × (c ≢ b'.')) n → All (λ c. is_in (codes "/") c ≡ false) n
no_slash [] h = tt
no_slash (c ∷ n) (hc, h) = (ground arith, no_slash n h)

not_back : (n : Bytes) → IsPlain n → same n (codes "..") ≡ false
not_back [] (e, h) = refl
not_back (c ∷ n) (e, (hc, h)) = ground arith

down_law : (d : List Bytes) (n s : Bytes) → IsPlain n → at d (n ++ b'/' ∷ s) ≡ at (n ∷ d) s
down_law d n s h =
    ap (walk d) (tokens_word (codes "/") n s b'/' (h.0, no_slash n h.1) refl)
    ∙ rw (not_back n h, walk) refl

-- Opens by the place that a path leads to, for a program that runs in a directory.
abbrev fd_of : List Bytes → Mode → Reply
fd_of place mode = returned (length place)

abbrev kernel_in : List Bytes → System
kernel_in d = record kernel { opens = λ path mode. fd_of (at d path) mode }

same_fifo_example :
    (cn_open_fifo
        (kernel_in (codes "build" ∷ codes "client" ∷ []))
        (cn_fifo_rel ++ codes "fifo42_tx")
        wronly
      ≡ opened_fifo
          (fd_of (at (codes "channels" ∷ codes "server" ∷ []) (codes "fifo42_tx")) wronly))
    × (s_open_fifo (kernel_in (codes "bin" ∷ codes "server" ∷ [])) (codes "fifo42_tx") rdonly
        ≡ opened_fifo
            (fd_of (at (codes "channels" ∷ codes "server" ∷ []) (codes "fifo42_tx")) rdonly))
unfolding cn_mkfifo_path print_into after_slash digits
same_fifo_example =
    same_fifo (List Bytes) (List Bytes) (λ d n. n ∷ d) at up_law down_law kernel fd_of []
      (codes "build") (codes "bin") 42 (codes "tx") (cn_fifo_rel ++ codes "fifo42_tx")
      (codes "fifo42_tx") wronly rdonly (omega arith) (omega arith) (omega arith) refl refl
