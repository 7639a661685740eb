-- ===== src/Multiplex/Meeting.antt =====
-- The client and the server meet at one file. How a path leads from a directory to a file is a
-- parameter, of which the code needs that `..` leads back and a plain name leads on.
use sem.Common.{
  ℕ, ◌<◌, ◌≡◌, ◌≢◌, refl, sym, ap, ◌∙◌, [], ◌∷◌, ◌++◌, Bytes, codes, All, length, arith, ok,
  ok-injective, power_of_ten,
}
use sem.Multiplex.System.{System, Mode, Reply}
use sem.Multiplex.Registration.{print_into-ok}
use sem.Multiplex.Server.{s_fifo_rel, base_name, max_path, s_open_fifo, opened_fifo}
use sem.Multiplex.Client.{cn_fifo_rel, cn_mkfifo_path, cn_open_fifo}
use sem.Multiplex.Names.{IsNameChar, fifo_name, fifo_name-All, base_name-path}
use sem.Multiplex.RoundTrip.{fifo_name-length, cn_mkfifo_path-ok}

-- The name of a directory: no slash, and no dot.
abbrev pub IsPlain : Bytes → Type 0
IsPlain n = (n ≢ []) × All (λ c. (c ≢ b'/') × (c ≢ b'.')) n

module _ (Dir : Type 0) (Place : Type 0) (child : Dir → Bytes → Dir) (at : Dir → Bytes → Place)
    (up : (d : Dir) (n s : Bytes) → at (child d n) (codes "../" ++ s) ≡ at d s)
    (down : (d : Dir) (n s : Bytes) → IsPlain n → at d (n ++ b'/' ∷ s) ≡ at (child d n) s) where
  abbrev pub server_place : Dir → Bytes → Place
  server_place root s = at (child (child root (codes "server")) (codes "channels")) s

  -- From the root of both programs down to the channels.
  into_channels :
      (root : Dir) (s : Bytes) → at root (codes "server/channels/" ++ s) ≡ server_place root s
  into_channels root s =
      down root (codes "server") (codes "channels/" ++ s) ((λ e. cc), omega arith)
      ∙ down (child root (codes "server")) (codes "channels") s ((λ e. cc), omega arith)

  -- The client's prefix leads from two directories below the root to the channels.
  from_client :
      (root : Dir) (m n s : Bytes)
      → at (child (child root m) n) (cn_fifo_rel ++ s) ≡ server_place root s
  from_client root m n s =
      up (child root m) n (codes "../server/channels/" ++ s)
      ∙ up root m (codes "server/channels/" ++ s)
      ∙ into_channels root s

  from_server :
      (root : Dir) (n s : Bytes)
      → at (child (child root (codes "server")) n) (s_fifo_rel ++ s) ≡ server_place root s
  from_server root n s =
      up (child root (codes "server")) n (codes "channels/" ++ s)
      ∙ down (child root (codes "server")) (codes "channels") s ((λ e. cc), omega arith)

  -- The client's prefix twice: up to the root, into the channels, up again and back into them.
  from_client_twice :
      (root : Dir) (m s : Bytes)
      → at (child (child root (codes "client")) m) (cn_fifo_rel ++ (cn_fifo_rel ++ s))
        ≡ server_place root s
  from_client_twice root m s =
      from_client root (codes "client") m (cn_fifo_rel ++ s)
      ∙ up (child root (codes "server")) (codes "channels") (codes "../server/channels/" ++ s)
      ∙ up root (codes "server") (codes "server/channels/" ++ s)
      ∙ into_channels root s

  module _ (sys : System) (open_at : Place → Mode → Reply) where
    -- The calls of a program that runs in a directory, whose opens go to the file of the path.
    abbrev run_in : Dir → System
    run_in d = record sys { opens = λ path mode. open_at (at d path) mode }

    cn_opens :
        (d : Dir) (path : Bytes) (place : Place) (mode : Mode)
        → length path < 200
        → at d (cn_fifo_rel ++ path) ≡ place
        → cn_open_fifo (run_in d) path mode ≡ opened_fifo (open_at place mode)
    unfolding cn_open_fifo
    cn_opens d path place mode h e =
        rw (print_into-ok max_path (cn_fifo_rel ++ path) (omega (arith, h)), e) refl

    s_opens :
        (d : Dir) (name : Bytes) (place : Place) (mode : Mode)
        → length name < 200
        → at d (s_fifo_rel ++ name) ≡ place
        → s_open_fifo (run_in d) name mode ≡ opened_fifo (open_at place mode)
    unfolding s_open_fifo
    s_opens d name place mode h e =
        rw (print_into-ok max_path (s_fifo_rel ++ name) (omega (arith, h)), e) refl

    -- The client passes its path, which begins with the prefix, to `cn_open_fifo`, which puts the
    -- prefix in front once more; the server passes what it keeps, the name behind the last slash, to
    -- `s_open_fifo`. Run from a directory in `client` and one in `server`, both open the file of this
    -- name in `server/channels`, where `..` leads back and a plain name leads on, and the pid has at
    -- most ten digits and the suffix fewer than ten characters, none of them a slash, a blank
    -- or a NUL.
    pub same_fifo :
        (root : Dir) (m n : Bytes) (pid : ℕ) (suf path name : Bytes) (mode mode' : Mode)
        → pid < power_of_ten 10
        → length suf < 10
        → All IsNameChar suf
        → cn_mkfifo_path pid suf ≡ ok path
        → base_name path ≡ ok name
        → (cn_open_fifo (run_in (child (child root (codes "client")) m)) path mode
            ≡ opened_fifo (open_at (server_place root name) mode))
          × (s_open_fifo (run_in (child (child root (codes "server")) n)) name mode'
              ≡ opened_fifo (open_at (server_place root name) mode'))
    same_fifo root m n pid suf path name mode mode' p l h made stored =
        let f = fifo_name pid suf in
        let short = fifo_name-length pid suf p l in
        let a : cn_fifo_rel ++ f ≡ path =
          ok-injective (sym (cn_mkfifo_path-ok pid suf p l) ∙ made) in
        let b : f ≡ name = ok-injective (
          sym (base_name-path f (fifo_name-All pid suf h) (omega (arith, short)))
          ∙ ap base_name a
          ∙ stored) in
        let there : at (child (child root (codes "client")) m) (cn_fifo_rel ++ path)
            ≡ server_place root name =
          ap (λ (x : Bytes). at (child (child root (codes "client")) m) (cn_fifo_rel ++ x)) (sym a)
          ∙ from_client_twice root m f
          ∙ ap (server_place root) b in
        (
          cn_opens (child (child root (codes "client")) m) path (server_place root name) mode
              (omega (arith, short, ap length a)) there,
          s_opens (child (child root (codes "server")) n) name (server_place root name) mode'
              (omega (arith, short, ap length b)) (from_server root n name),
        )
