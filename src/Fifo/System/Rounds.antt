-- ===== src/Fifo/System/Rounds.antt =====
-- What one round of each loop does, in terms of the messages of `Stream`.
use sem.Common.{
  ℕ, suc, ◌+◌, ◌≤◌, ◌<◌, ◌≡◌, ◌≢◌, refl, ap, true, false, some, [], ◌∷◌, ◌++◌, arith, Bytes, take,
  drop, length, take-append, take_all, ok, ◌==◌,
}
use sem.Fifo.Server.{Server, server_round}
use sem.Fifo.Client.{Client, client_round}

-- The message that carries a block; an empty block is not sent.
abbrev pub message : Bytes → Bytes
message [] = []
message (c ∷ b) = length (c ∷ b) ∷ c ∷ b

take-behind : (n : ℕ) (b rest : Bytes) → length b ≡ n → take (suc n) (n ∷ (b ++ rest)) ≡ n ∷ b
take-behind n b rest h = ap (λ (l : Bytes). n ∷ l) (take-append n b rest h)

pub server_round_lem :
    (b : Bytes) (s : Server)
    → length b ≤ 127
    → s.sm_data ≢ []
    → ((server_round (some b) s).1 ≡ message b)
      × ((server_round (some b) s).0.running ≡ (length b == 127))
      × ((server_round (some b) s).0.sm_data ≢ [])
unfolding server_round
server_round_lem b s h filled = go b s.sm_data h filled
  where
    go :
        (b d : Bytes)
        → length b ≤ 127
        → d ≢ []
        → ((server_round (some b) (record { sm_data = d; running = s.running })).1 ≡ message b)
          × ((server_round (some b) (record { sm_data = d; running = s.running })).0.running
              ≡ (length b == 127))
          × ((server_round (some b) (record { sm_data = d; running = s.running })).0.sm_data ≢ [])
    go b [] h filled = absurd (filled refl)
    go [] (c ∷ d) h filled = (refl, refl, λ e. cc)
    go (x ∷ b) (c ∷ d) h filled = (
      ground (arith, take-behind (suc (length b)) (x ∷ b) (drop (suc (length b)) d) refl),
      ground arith,
      λ e. ground arith,
    )

-- A full message in front of the pipe is written out whole, and the loop goes on.
pub client_round-full :
    (b rest : Bytes) (c : Client)
    → length b ≡ 127
    → (d : Bytes) × (client_round (some (take 128 (127 ∷ (b ++ rest)))) true c
        ≡ ok (record { sm_data = d; out = c.out ++ b; running = true }))
unfolding client_round
client_round-full b rest c h = (
  127 ∷ (b ++ drop (0 + suc (length b)) c.sm_data),
  rw (take-append 127 b rest h, take-append 127 b (drop (0 + suc (length b)) c.sm_data) h),
)

-- A short message is written out and ends the loop.
pub client_round-last :
    (b : Bytes) (c : Client)
    → 0 < length b
    → length b < 127
    → (d : Bytes) × (client_round (some (take 128 (length b ∷ b))) true c
        ≡ ok (record { sm_data = d; out = c.out ++ b; running = false }))
unfolding client_round
client_round-last b c h k = (
  length b ∷ (b ++ drop (0 + suc (length b)) c.sm_data),
  rw (take_all 127 b (omega arith))
      (ground (arith, take-append (length b) b (drop (0 + suc (length b)) c.sm_data) refl)),
)
