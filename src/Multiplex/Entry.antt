-- ===== src/Multiplex/Entry.antt =====
-- What the request of a client writes into its entry.
use sem.Common.{
  ℕ, ◌+◌, ◌<◌, ◌≡◌, refl, true, false, some, [], ◌∷◌, List, Bytes, codes, get_elem?,
  get_elem?-set_self, get_elem?-lt, length, length-set, set, ltb, ok, arith,
}
use sem.Multiplex.Server.{Client, Server, client_at, put_client, base_name, check_word, check_words}

abbrev pub with_client : Server → ℕ → Client → Server
with_client s i c = record s { clients = set s.clients i c }

pub client_at-ok :
    (s : Server) (i : ℕ) {c : Client} → get_elem? s.clients i ≡ some c → client_at s i ≡ ok c
unfolding client_at
client_at-ok s i h = rw (h, client_at) refl

client_at-with :
    (s : Server) (i : ℕ) (c : Client)
    → i < length s.clients
    → client_at (with_client s i c) i ≡ ok c
client_at-with s i c h = client_at-ok (with_client s i c) i (get_elem?-set_self s.clients i c h)

pub put_client-ok :
    (s : Server) (i : ℕ) (c : Client)
    → i < length s.clients
    → put_client s i c ≡ ok (with_client s i c)
unfolding put_client
put_client-ok s i c h = let e : ltb i (length s.clients) ≡ true = ground arith in rw e refl

-- The entry of a client that has registered.
abbrev pub named : Client → Bytes → Bytes → Client
named c tx rx = record (record (record c { fifo_tx = tx }) { fifo_rx = rx }) { is_active = 1 }

module _ (s : Server) (c : Client) (there : get_elem? s.clients s.client_max ≡ some c) where
  abbrev pub first : Bytes → Server
  first tx = with_client s s.client_max (record c { fifo_tx = tx })

  abbrev pub second : Bytes → Bytes → Server
  second tx rx =
      with_client (first tx) s.client_max (record (record c { fifo_tx = tx }) { fifo_rx = rx })

  abbrev pub third : Bytes → Bytes → Server
  third tx rx = with_client (second tx rx) s.client_max (named c tx rx)

  first_range : (tx : Bytes) → s.client_max < length (first tx).clients
  first_range tx = omega (
    arith,
    get_elem?-lt s.clients s.client_max there,
    length-set s.clients s.client_max (record c { fifo_tx = tx }),
  )

  pub second_range : (tx rx : Bytes) → s.client_max < length (second tx rx).clients
  second_range tx rx = omega (
    arith,
    first_range tx,
    length-set (first tx).clients s.client_max
        (record (record c { fifo_tx = tx }) { fifo_rx = rx }),
  )

  pub third_range : (tx rx : Bytes) → s.client_max < length (third tx rx).clients
  third_range tx rx =
      omega
        (arith, second_range tx rx, length-set (second tx rx).clients s.client_max (named c tx rx))

  pub check_words-registers :
      (p q tx rx : Bytes)
      → base_name p ≡ ok tx
      → base_name q ≡ ok rx
      → check_words 0 (codes "REGISTER" ∷ p ∷ q ∷ []) s
        ≡ ok (true, record (third tx rx) { client_max = s.client_max + 1 })
  unfolding check_words check_word
  check_words-registers p q tx rx h k =
      let l0 : s.client_max < length s.clients = get_elem?-lt s.clients s.client_max there in
      let l1 = first_range tx in
      let l2 = second_range tx rx in
      rw
        (
          client_at-ok s s.client_max there,
          h,
          put_client-ok s s.client_max (record c { fifo_tx = tx }) l0,
          client_at-with s s.client_max (record c { fifo_tx = tx }) l0,
          k,
          put_client-ok (first tx) s.client_max
              (record (record c { fifo_tx = tx }) { fifo_rx = rx }) l1,
          client_at-with (first tx) s.client_max
              (record (record c { fifo_tx = tx }) { fifo_rx = rx }) l1,
          put_client-ok (second tx rx) s.client_max (named c tx rx) l2,
        )
        refl

  -- A request with a fourth word is turned away, with both names written.
  pub check_words-rejects :
      (p q extra tx rx : Bytes) (more : List Bytes)
      → base_name p ≡ ok tx
      → base_name q ≡ ok rx
      → check_words 0 (codes "REGISTER" ∷ p ∷ q ∷ extra ∷ more) s ≡ ok (false, second tx rx)
  unfolding check_words check_word
  check_words-rejects p q extra tx rx more h k =
      let l0 : s.client_max < length s.clients = get_elem?-lt s.clients s.client_max there in
      rw
        (
          client_at-ok s s.client_max there,
          h,
          put_client-ok s s.client_max (record c { fifo_tx = tx }) l0,
          client_at-with s s.client_max (record c { fifo_tx = tx }) l0,
          k,
          put_client-ok (first tx) s.client_max
              (record (record c { fifo_tx = tx }) { fifo_rx = rx }) (first_range tx),
        )
        refl
