-- ===== src/Multiplex/Counts.antt =====
-- What a registration request does to the counters of the server.
use sem.Common.{
  ℕ, ◌+◌, ◌≡◌, sym, ap, ◌∙◌, Bool, true, false, List, [], ◌∷◌, Bytes, codes, tokens, ◌==◌, Run, ok,
  ◌>>=◌, chain-parts, Bool-cases, inl, inr, arith, ok-injective,
}
use sem.Multiplex.Server.{
  buf_sz, Client, Server, print_into, client_at, put_client, base_name, check_word, check_words,
  s_check_reg_request,
}

-- A state that has the counters of another.
abbrev pub IsAsCounted : Server → Server → Type 0
IsAsCounted s t = (t.client_max ≡ s.client_max) × (t.watched ≡ s.watched)

pub put_client-IsAsCounted :
    (s : Server) (i : ℕ) (c : Client) {t : Server} → put_client s i c ≡ ok t → IsAsCounted s t
unfolding put_client
put_client-IsAsCounted s i c h = ground arith

-- The rounds that store a name.
store-IsAsCounted :
    (p : Bytes) (s : Server) (f : Client → Bytes → Client) {r : Bool × Server}
    → (client_at s s.client_max >>= λ c.
        base_name p >>= λ name. put_client s s.client_max (f c name) >>= λ s'. ok (true, s'))
      ≡ ok r
    → IsAsCounted s r.1
store-IsAsCounted p s f {r} h =
    let (c, a, h1) = chain-parts (client_at s s.client_max) _ h in
    let (name, b, h2) = chain-parts (base_name p) _ h1 in
    let (t, d, h3) = chain-parts (put_client s s.client_max (f c name)) _ h2 in
    let e = ap (λ (x : Bool × Server). x.1) (ok-injective h3) in
    let (u, v) = put_client-IsAsCounted s s.client_max (f c name) d in
    (sym (ap (λ (x : Server). x.client_max) e) ∙ u, sym (ap (λ (x : Server). x.watched) e) ∙ v)

check_word-IsAsCounted :
    (i : ℕ) (p : Bytes) (s : Server) {r : Bool × Server}
    → check_word i p s ≡ ok r
    → IsAsCounted s r.1
unfolding check_word
check_word-IsAsCounted i p s {r} h = elim (Bool-cases (i == 0)) [
  | inl a ↦ ground arith
  | inr a ↦ elim (Bool-cases (i == 1)) [
    | inl b ↦ store-IsAsCounted p s (λ c name. record c { fifo_tx = name }) (rw (a, b) at h)
    | inr b ↦ elim (Bool-cases (i == 2)) [
      | inl d ↦ store-IsAsCounted p s (λ c name. record c { fifo_rx = name }) (rw (a, b, d) at h)
      | inr d ↦ ground arith
    ]
  ]
]

abbrev pub bit : Bool → ℕ
bit true = 1
bit false = 0

-- What a check leaves: one more client if it succeeds.
abbrev pub IsChecked : Server → Bool × Server → Type 0
IsChecked s r = (r.1.client_max ≡ s.client_max + bit r.0) × (r.1.watched ≡ s.watched)

after_word-IsChecked :
    (b : Bool) (s t : Server) (k : Run (Bool × Server)) {r : Bool × Server}
    → IsAsCounted s t
    → (k ≡ ok r → IsChecked t r)
    → elim b as (λ x. Run (Bool × Server)) [ true ↦ k | false ↦ ok (b, t) ] ≡ ok r
    → IsChecked s r
after_word-IsChecked true s t k c f h = let (a, b) = f h in (omega (arith, a, c.0), b ∙ c.1)
after_word-IsChecked false s t k {r} c f h =
    let e = ok-injective h in
    (
      omega (
        arith,
        c.0,
        ap (λ (x : Bool × Server). x.1.client_max) e,
        ap (λ (x : Bool × Server). bit x.0) e,
      ),
      sym (ap (λ (x : Bool × Server). x.1.watched) e) ∙ c.1,
    )

check_words-IsChecked :
    (i : ℕ) (ps : List Bytes) (s : Server) {r : Bool × Server}
    → check_words i ps s ≡ ok r
    → IsChecked s r
unfolding check_words
check_words-IsChecked i [] s {r} h =
    let (c, a, h1) = chain-parts (client_at s s.client_max) _ h in
    let d : Client = record c { is_active = 1 } in
    let (t, b, h2) = chain-parts (put_client s s.client_max d) _ h1 in
    let (u, v) = put_client-IsAsCounted s s.client_max d b in
    let e = ok-injective h2 in
    (
      omega (
        arith,
        u,
        ap (λ (x : Bool × Server). x.1.client_max) e,
        ap (λ (x : Bool × Server). bit x.0) e,
      ),
      sym (ap (λ (x : Bool × Server). x.1.watched) e) ∙ v,
    )
check_words-IsChecked i (p ∷ ps) s {r} h =
    let (t, a, h1) = chain-parts (check_word i p s) _ h in
    after_word-IsChecked t.0 s t.1 (check_words (i + 1) ps t.1) (check_word-IsAsCounted i p s a)
      (check_words-IsChecked (i + 1) ps t.1) h1

pub s_check_reg_request-IsChecked :
    (line : Bytes) (s : Server) {r : Bool × Server}
    → s_check_reg_request line s ≡ ok r
    → IsChecked s r
unfolding s_check_reg_request
s_check_reg_request-IsChecked line s h =
    let (cmd, a, h1) = chain-parts (print_into buf_sz line) _ h in
    check_words-IsChecked 0 (tokens (codes " ") cmd) s h1
