-- ===== src/Multiplex/Bounds.antt =====
-- How many clients the server comes to hold.
use mathlib.Core.Path.{subst}
use sem.Common.{
  ℕ, ◌-◌, ◌≤◌, ◌≡◌, refl, sym, ap, ◌∙◌, Bool, true, false, List, [], ◌∷◌, ◌++◌, Bytes, take, length,
  length-append, overlay, ◌==◌, Run, ok, ensure, chain-parts, Bool-cases, inl, inr, arith, All,
  All-append, ok-injective,
}
use sem.Multiplex.System.{rdonly, wronly, Watch, System}
use sem.Multiplex.Server.{
  buf_sz, Client, Server, as_string, s_mkfifo, s_open_fifo, client_at, put_client,
  s_check_reg_request, open_client, with_words, add_client, s_register, register_line,
  register_round, s_register_clients, s_prepare, s_fifo_reg, s_fifo_rsp, main,
}
use sem.Multiplex.Counts.{IsChecked, put_client-IsAsCounted, s_check_reg_request-IsChecked}

-- The state of a server whose epoll set has an entry for each client, all of them for descriptor 0.
pub record IsWatching (s : Server) : Type 0 where
  pub entries : s.client_max ≡ length s.watched
  pub only_stdin : All (λ x. x.fd ≡ 0) s.watched
  pub few : s.client_max ≤ 1

ensure-ok : (b : Bool) (code : ℕ) {u : Unit {0}} → ensure b code ≡ ok u → b ≡ true
ensure-ok true code h = refl
ensure-ok false code h = absurd (cc)

module _ (sys : System)
    (again : (before after : List Watch) (x : Watch)
      → sys.epoll_add (before ++ x ∷ after) x.fd ≡ false) where
  none_watched : (w : List Watch) → All (λ x. x.fd ≡ 0) w → sys.epoll_add w 0 ≡ true → length w ≡ 0
  none_watched [] h e = refl
  none_watched (x ∷ w) (h, hs) e = absurd (cc (ap (sys.epoll_add (x ∷ w)) h, again [] w x))

  add_client-watched :
      (i : ℕ) (cn : Client) (s : Server) {t : Server}
      → All (λ x. x.fd ≡ 0) s.watched
      → add_client sys i cn s ≡ ok t
      → (t.client_max ≡ s.client_max)
        × (length s.watched ≡ 0)
        × (length t.watched ≡ 1)
        × All (λ x. x.fd ≡ 0) t.watched
  unfolding add_client
  add_client-watched i cn s {t} h e =
      let (_, a, e1) = chain-parts (ensure (sys.writes s.rsp_fd_w) 1) _ e in
      let (u, b, e2) = chain-parts (put_client s i cn) _ e1 in
      let (_, c, e3) = chain-parts (ensure (sys.epoll_add s.watched 0) 1) _ e2 in
      let empty = none_watched s.watched h (ensure-ok (sys.epoll_add s.watched 0) 1 c) in
      let (n, m) = put_client-IsAsCounted s i cn b in
      let new : Watch = record { fd = 0; word = cn.word } in
      let k = ap (λ (x : Server). x.watched) (ok-injective e3) in
      let l : length (s.watched ++ new ∷ []) ≡ 1 =
        omega (arith, length-append s.watched (new ∷ []), empty) in
      (
        sym (ap (λ (x : Server). x.client_max) (ok-injective e3)) ∙ n,
        empty,
        sym (ap length k) ∙ l,
        subst (All (λ (x : Watch). x.fd ≡ 0)) k
            (All-append (λ (x : Watch). x.fd ≡ 0) s.watched (new ∷ []) h (refl, tt)),
      )

  -- `s_register` watches one descriptor more, and only where none was watched.
  s_register-watched :
      (i : ℕ) (s : Server) {t : Server}
      → All (λ x. x.fd ≡ 0) s.watched
      → s_register sys i s ≡ ok t
      → (t.client_max ≡ s.client_max)
        × (length s.watched ≡ 0)
        × (length t.watched ≡ 1)
        × All (λ x. x.fd ≡ 0) t.watched
  unfolding s_register
  s_register-watched i s h e =
      let (cn, a, e1) = chain-parts (client_at s i) _ e in
      let (fds, b, e2) = chain-parts (open_client sys cn) _ e1 in
      add_client-watched i (with_words cn fds) s h e2

  registered-IsWatching :
      (b : Bool) (s u : Server) {t : Server}
      → IsWatching s
      → IsChecked s (b, u)
      → elim b as (λ x. Run Server) [ true ↦ s_register sys (u.client_max - 1) u | false ↦ ok u ]
        ≡ ok t
      → IsWatching t
  registered-IsWatching true s u {t} v (n, m) e =
      let only : All (λ x. x.fd ≡ 0) u.watched = rw m v.only_stdin in
      let (a, b, c, d) = s_register-watched (u.client_max - 1) u only e in
      let z : length s.watched ≡ 0 = sym (ap length m) ∙ b in
      record {
        entries = omega (arith, a, n, c, z, v.entries);
        only_stdin = d;
        few = omega (arith, a, n, z, v.entries);
      }
  registered-IsWatching false s u {t} v (n, m) e = subst IsWatching (ok-injective e) (record {
    entries = omega (arith, n, v.entries, ap length m);
    only_stdin = rw m v.only_stdin;
    few = omega (arith, n, v.few);
  })

  register_line-IsWatching :
      (line : Bytes) (s : Server) {t : Server}
      → IsWatching s
      → register_line sys line s ≡ ok t
      → IsWatching t
  unfolding register_line
  register_line-IsWatching line s v e =
      let (r, a, e1) = chain-parts (s_check_reg_request line s) _ e in
      registered-IsWatching r.0 s r.1 v (s_check_reg_request-IsChecked line s a) e1

  register_round-IsWatching :
      (got : Bytes) (s : Server) {t : Server}
      → IsWatching s
      → register_round sys got s ≡ ok t
      → IsWatching t
  unfolding register_round
  register_round-IsWatching got s {t} v e =
      let filled = overlay 0 (take buf_sz got) s.request in
      let (text, a, e1) = chain-parts (as_string filled) _ e in
      elim (Bool-cases (length text == 0)) [
        | inl z ↦
            subst IsWatching (ok-injective (rw z at e1))
              (record { entries = v.entries; only_stdin = v.only_stdin; few = v.few })
        | inr z ↦
            (let (u, b, e2) =
                chain-parts (register_line sys (take (length text - 1) text) s) _ (rw z at e1) in
              let w = register_line-IsWatching (take (length text - 1) text) s v b in
              subst IsWatching (ok-injective e2)
                (record { entries = w.entries; only_stdin = w.only_stdin; few = w.few }))
      ]

  s_register_clients-IsWatching :
      (gots : List Bytes) (s : Server) {t : Server}
      → IsWatching s
      → s_register_clients sys gots s ≡ ok t
      → IsWatching t
  unfolding s_register_clients
  s_register_clients-IsWatching [] s v e = subst IsWatching (ok-injective e) v
  s_register_clients-IsWatching (got ∷ gots) s v e =
      let (u, a, e1) = chain-parts (register_round sys got s) _ e in
      s_register_clients-IsWatching gots u (register_round-IsWatching got s v a) e1

  s_prepare-IsWatching : {s : Server} → s_prepare sys ≡ ok s → IsWatching s
  unfolding s_prepare
  s_prepare-IsWatching {s} e =
      let (a, p, e1) = chain-parts (s_mkfifo sys s_fifo_reg) _ e in
      let (b, q, e2) = chain-parts (s_mkfifo sys s_fifo_rsp) _ e1 in
      let (c, r, e3) = chain-parts (s_open_fifo sys s_fifo_reg rdonly) _ e2 in
      let (d, u, e4) = chain-parts (s_open_fifo sys s_fifo_rsp rdonly) _ e3 in
      let (f, v, e5) = chain-parts (s_open_fifo sys s_fifo_reg wronly) _ e4 in
      let (g, w, e6) = chain-parts (s_open_fifo sys s_fifo_rsp wronly) _ e5 in
      subst IsWatching (ok-injective e6)
        (record { entries = refl; only_stdin = tt; few = omega arith })

  s_register_clients-bounds :
      (gots : List Bytes) {s t : Server}
      → s_prepare sys ≡ ok s
      → s_register_clients sys gots s ≡ ok t
      → (t.client_max ≤ 1) × (t.client_max ≡ length t.watched)
  s_register_clients-bounds gots {s} e h =
      let v = s_register_clients-IsWatching gots s (s_prepare-IsWatching e) h in (v.few, v.entries)

  -- Whatever comes in over the registration fifo, a server that is still running serves at most one
  -- client, the length of its epoll set, if adding a descriptor that the set has fails: `s_register`
  -- adds the descriptor 0 for every client.
  pub main-bounds :
      (gots : List Bytes) {t : Server}
      → main sys gots ≡ ok t
      → (t.client_max ≤ 1) × (t.client_max ≡ length t.watched)
  unfolding main
  main-bounds gots h =
      let (s, e, g) = chain-parts (s_prepare sys) (s_register_clients sys gots) h in
      s_register_clients-bounds gots e g
