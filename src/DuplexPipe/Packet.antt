-- ===== src/DuplexPipe/Packet.antt =====
-- The packets of the duplex pipe, as bytes.
use sem.Common.{
  ℕ, suc, ◌+◌, ◌/◌, ◌%◌, ◌≤◌, ◌<◌, ◌≡◌, refl, true, false, [], ◌∷◌, ◌++◌, arith, Bytes, take, drop,
  length, length-append, take-append, ◌==◌, ==_iff, ltb, ok,
}
use sem.DuplexPipe.Pipe.{fill, last_count, announced, Receiver, rcv_round}

-- A packet: its number, the two counts, and the block.
abbrev pub packet : ℕ → Bytes → Bytes
packet i block = i ∷ (length block / 256 + 1) % 256 ∷ last_count (length block) ∷ block

-- The first bytes of the filled buffer are the packet.
pub take-fill :
    (i : ℕ) (block buffer : Bytes)
    → i < 128
    → 3 ≤ length buffer
    → take (length block + 3) (fill i block buffer) ≡ packet i block
take-fill i block [] h k = absurd (omega arith)
take-fill i block (a ∷ []) h k = absurd (omega arith)
take-fill i block (a ∷ b ∷ []) h k = absurd (omega arith)
take-fill i block (a ∷ b ∷ c ∷ buffer) h k =
    let long : length block + 3 ≡ suc (suc (suc (length block))) = omega arith in
    let small : i % 256 ≡ i = omega arith in
    let stale = drop (3 + length block) (i % 256 ∷ b'0' ∷ b'0' ∷ buffer) in
    rw (long, take-append (length block) block stale refl, small)

pub length-fill :
    (i : ℕ) (block buffer : Bytes) → 3 ≤ length buffer → 3 ≤ length (fill i block buffer)
length-fill i block [] k = absurd (omega arith)
length-fill i block (a ∷ []) k = absurd (omega arith)
length-fill i block (a ∷ b ∷ []) k = absurd (omega arith)
length-fill i block (a ∷ b ∷ c ∷ buffer) k = omega arith

-- The receiver reads the length of the block off the two counts.
pub announced-header :
    (i : ℕ) (block rest : Bytes)
    → length block ≤ 65024
    → announced (i ∷ (length block / 256 + 1) % 256 ∷ last_count (length block) ∷ rest)
      ≡ length block
announced-header i block rest h = ground arith

-- A round that gets a whole packet with the expected number writes out its block.
pub rcv_round-packet :
    (block : Bytes) (r : Receiver)
    → length block ≤ 65024
    → (buffer : Bytes) × (rcv_round (packet r.i block) r
        ≡ ok (record { i = (r.i + 1) % 128; buffer = buffer; out = r.out ++ block }))
unfolding rcv_round
rcv_round-packet block r h =
    let stale = drop (0 + suc (suc (suc (length block)))) r.buffer in
    let mine : (r.i == r.i) ≡ true = (==_iff r.i r.i).1 refl in
    let fits : ltb (length (block ++ stale)) (length block) ≡ false =
      ground (arith, length-append block stale) in
    (
      packet r.i block ++ stale,
      rw (
        mine,
        announced-header r.i block (block ++ stale) h,
        fits,
        take-append (length block) block stale refl,
      ),
    )
