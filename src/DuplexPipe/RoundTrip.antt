-- ===== src/DuplexPipe/RoundTrip.antt =====
-- What the duplex pipe delivers, where each read gives one packet.
use Prim.Native.Nat.{min}
use sem.Common.{
  ℕ, zero, suc, ◌+◌, ◌/◌, ◌%◌, ◌≤◌, ◌<◌, ◌≡◌, ◌≢◌, refl, sym, ap, ◌∙◌, true, false, [], ◌∷◌, ◌++◌,
  arith, Bytes, take, drop, length, length-take, length-drop, take-append-drop, take_all,
  append_assoc, ◌==◌, ==_iff, ltb, ok, Bool-cases, inl, inr, replicate, length-replicate, same_refl,
  ne→differ,
}
use sem.DuplexPipe.Pipe.{
  buf_sz, fill, Pipe, Receiver, last_count, rcv_loop, snd_loop, p_snd, p_rcv, ctor_pipe,
  ctor_string, Files, store, carry, main_program, rcv_round,
}
use sem.DuplexPipe.Packet.{packet, announced-header, take-fill, length-fill, rcv_round-packet}

full_block : (rest : Bytes) → (length (take 65024 rest) == 65024) ≡ true → 65024 ≤ length rest
full_block rest z = omega (arith, length-take {0} 65024 rest, (==_iff _ _).0 z)

short_block : (rest : Bytes) → (length (take 65024 rest) == 65024) ≡ false → length rest ≤ 65024
short_block rest z = below (length rest) _ (length-take 65024 rest) z
  where
    below : (n m : ℕ) → m ≡ min 65024 n → (m == 65024) ≡ false → n ≤ 65024
    below n m e z = ground arith

-- With enough fuel the receiver appends what is left of the file, whatever is in the buffers.
loop_carries :
    (fuel : ℕ) (rest buffer : Bytes) (r : Receiver)
    → length rest < fuel
    → r.i < 128
    → 3 ≤ length buffer
    → (r' : Receiver) × (rcv_loop (snd_loop fuel r.i rest buffer) r ≡ ok r')
      × (r'.out ≡ r.out ++ rest)
unfolding rcv_loop snd_loop
loop_carries zero rest buffer r h k l = absurd (omega arith)
loop_carries (suc fuel) rest buffer r h k l =
    elim (Bool-cases (length (take 65024 rest) == 65024)) [
      | inl z ↦
          let long : 65024 ≤ length rest = full_block rest z in
          let (r', run, out) =
            loop_carries fuel (drop 65024 rest) (fill r.i (take 65024 rest) buffer) next
              (omega (arith, length-drop {0} 65024 rest)) (omega arith)
              (length-fill r.i (take 65024 rest) buffer l) in
          (
            r',
            rw (z, sent, round.1) run,
            out
                ∙ append_assoc r.out (take 65024 rest) (drop 65024 rest)
                ∙ ap (λ (m : Bytes). r.out ++ m) (take-append-drop 65024 rest),
          )
      | inr z ↦ (
        next,
        rw (z, sent, round.1),
        ap (λ (m : Bytes). r.out ++ m) (take_all 65024 rest (short_block rest z)),
      )
    ]
  where
    short : length (take 65024 rest) ≤ 65024
    short = omega (arith, length-take {0} 65024 rest)

    sent :
        take (length (take 65024 rest) + 3) (fill r.i (take 65024 rest) buffer)
        ≡ packet r.i (take 65024 rest)
    sent = take-fill r.i (take 65024 rest) buffer k l

    round :
        (b : Bytes) × (rcv_round (packet r.i (take 65024 rest)) r
          ≡ ok (record { i = (r.i + 1) % 128; buffer = b; out = r.out ++ take 65024 rest }))
    round = rcv_round-packet (take 65024 rest) r short

    next : Receiver
    next = record { i = (r.i + 1) % 128; buffer = round.0; out = r.out ++ take 65024 rest }

-- `p_rcv` writes the very file that `p_snd` has read, for every file, when each read gives one
-- packet.
p_rcv-p_snd :
    (sender receiver : Pipe) (file : Bytes)
    → 3 ≤ length sender.buf.bytes
    → p_rcv receiver (p_snd sender file) ≡ ok file
unfolding p_rcv p_snd
p_rcv-p_snd sender receiver file h =
    let (r', run, out) =
      loop_carries (suc (length file)) file sender.buf.bytes
        (record { i = 1; buffer = receiver.buf.bytes; out = [] }) (omega arith) (omega arith) h in
    rw run (ap ok out)

carry-ok :
    (self : Pipe) (files : Files)
    → 3 ≤ length self.buf.bytes
    → carry self files ≡ ok (store files self.fp_w (files self.fp_r))
unfolding carry
carry-ok self files h = rw (p_rcv-p_snd self self (files self.fp_r) h)

ctor_pipe-long : (fp_r fp_w : Bytes) → 3 ≤ length (ctor_pipe fp_r fp_w).buf.bytes
unfolding ctor_pipe ctor_string
ctor_pipe-long fp_r fp_w =
    let n : length (replicate {A = ℕ} buf_sz 0) ≡ buf_sz = length-replicate {A = ℕ} buf_sz 0 in
    omega arith

store_self : (files : Files) (path text : Bytes) → store files path text path ≡ text
store_self files path text = rw (same_refl path)

store_ne :
    (files : Files) (path other text : Bytes)
    → path ≢ other
    → store files path text other ≡ files other
store_ne files path other text h = rw (ne→differ path other h)

-- A read that ends behind the header, as a pipe may give it, makes the receiver write what its
-- buffer held before in place of the block: as many bytes as the header announces.
pub header_alone :
    (block : Bytes) (r : Receiver)
    → length block ≤ 65024
    → length r.buffer ≡ buf_sz
    → (buffer : Bytes) × (rcv_round (take 3 (packet r.i block)) r
        ≡ ok (record {
          i = (r.i + 1) % 128;
          buffer = buffer;
          out = r.out ++ take (length block) (drop 3 r.buffer);
        }))
unfolding rcv_round
header_alone block r h n =
    let mine : (r.i == r.i) ≡ true = (==_iff r.i r.i).1 refl in
    let fits : ltb (length (drop 3 r.buffer)) (length block) ≡ false =
      ground (arith, length-drop 3 r.buffer) in
    (
      r.i ∷ (length block / 256 + 1) % 256 ∷ last_count (length block) ∷ drop 3 r.buffer,
      rw (mine, announced-header r.i block (drop 3 r.buffer) h, fits),
    )

-- The round trip of the program: started with two different arguments, which name different files
-- that can be opened, where each read gives one packet and both pipes and the fork succeed, it leaves the source as it was, its copy under the second name, and
-- every other file alone.
pub main_program_echoes :
    (src dst : Bytes) (files : Files)
    → src ≢ dst
    → (files' : Files) × (main_program 3 src dst true true true files ≡ ok files')
      × (files' dst ≡ files src)
      × (files' src ≡ files src)
      × ((other : Bytes) → other ≢ src → other ≢ dst → files' other ≡ files other)
unfolding main_program
main_program_echoes src dst files h = (
  store (store files dst (files src)) src (store files dst (files src) dst),
  rw (
    carry-ok (ctor_pipe src dst) files (ctor_pipe-long src dst),
    carry-ok (ctor_pipe dst src) (store files dst (files src)) (ctor_pipe-long dst src),
  ),
  store_ne (store files dst (files src)) src dst _ h ∙ store_self files dst (files src),
  store_self (store files dst (files src)) src _ ∙ store_self files dst (files src),
  λ other p q.
      store_ne (store files dst (files src)) src other _ (λ e. p (sym e))
      ∙ store_ne files dst other (files src) (λ e. q (sym e)),
)
