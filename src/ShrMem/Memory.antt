-- ===== src/ShrMem/Memory.antt =====
-- Words of several bytes in a memory, the lowest byte first.
use sem.Common.{
  ℕ, zero, suc, ◌+◌, ◌*◌, ◌/◌, ◌%◌, ◌≤◌, ◌<◌, ◌≡◌, ◌≢◌, ◌⊎◌, inl, inr, refl, ◌∙◌, ◌==◌,
  if◌then◌else◌, arith,
}

-- The byte at each address.
abbrev pub Memory : Type 0
Memory = ℕ → ℕ

abbrev pub update : Memory → ℕ → ℕ → Memory
update m at v q = if at == q then v else m q

unfoldable pub read_word : Memory → ℕ → ℕ → ℕ
read_word m at zero = 0
read_word m at (suc n) = m at + 256 * read_word m (at + 1) n

unfoldable pub write_word : Memory → ℕ → ℕ → ℕ → Memory
write_word m at zero v = m
write_word m at (suc n) v = write_word (update m at (v % 256)) (at + 1) n (v / 256)

-- The numbers that so many bytes hold.
abbrev pub bound : ℕ → ℕ
bound zero = 1
bound (suc n) = 256 * bound n

pub update_other : (m : Memory) (at v q : ℕ) → at ≢ q → update m at v q ≡ m q
update_other m at v q h = ground arith

update_self : (m : Memory) (at v : ℕ) → update m at v at ≡ v
update_self m at v = ground arith

-- Nothing but the bytes of the word changes.
pub write_word-other :
    (m : Memory) (at n v q : ℕ) → (q < at) ⊎ (at + n ≤ q) → write_word m at n v q ≡ m q
unfolding write_word
write_word-other m at zero v q h = refl
write_word-other m at (suc n) v q (inl h) =
    write_word-other (update m at (v % 256)) (at + 1) n (v / 256) q (inl (omega (arith, h)))
    ∙ update_other m at (v % 256) q (omega (arith, h))
write_word-other m at (suc n) v q (inr h) =
    write_word-other (update m at (v % 256)) (at + 1) n (v / 256) q (inr (omega (arith, h)))
    ∙ update_other m at (v % 256) q (omega (arith, h))

-- A word is read from its bytes alone.
pub read_word_same :
    (m m' : Memory) (at n : ℕ)
    → ((q : ℕ) → at ≤ q → q < at + n → m q ≡ m' q)
    → read_word m at n ≡ read_word m' at n
unfolding read_word
read_word_same m m' at zero h = refl
read_word_same m m' at (suc n) h =
    let a = h at (omega arith) (omega arith) in
    let b = read_word_same m m' (at + 1) n (λ q k l. h q (omega (arith, k)) (omega (arith, l))) in
    omega (arith, a, b)

pub read_word-write_word :
    (m : Memory) (at n v : ℕ) → v < bound n → read_word (write_word m at n v) at n ≡ v
unfolding read_word write_word
read_word-write_word m at zero v h = omega (arith, h)
read_word-write_word m at (suc n) v h =
    let m' = update m at (v % 256) in
    let a = write_word-other m' (at + 1) n (v / 256) at (inl (omega arith)) in
    let b = update_self m at (v % 256) in
    let c = read_word-write_word m' (at + 1) n (v / 256) (omega (arith, h)) in
    omega (arith, a, b, c)

-- Words that do not overlap.
pub read_word-write_other :
    (m : Memory) (at n v at' n' : ℕ)
    → (at' + n' ≤ at) ⊎ (at + n ≤ at')
    → read_word (write_word m at n v) at' n' ≡ read_word m at' n'
read_word-write_other m at n v at' n' (inl h) =
    read_word_same (write_word m at n v) m at' n'
      λ q k l. write_word-other m at n v q (inl (omega (arith, h, l)))
read_word-write_other m at n v at' n' (inr h) =
    read_word_same (write_word m at n v) m at' n'
      λ q k l. write_word-other m at n v q (inr (omega (arith, h, k)))

-- A byte outside of a word.
pub read_word-update :
    (m : Memory) (at v at' n' : ℕ)
    → (at < at') ⊎ (at' + n' ≤ at)
    → read_word (update m at v) at' n' ≡ read_word m at' n'
read_word-update m at v at' n' (inl h) =
    read_word_same (update m at v) m at' n' λ q k l. update_other m at v q (omega (arith, h, k))
read_word-update m at v at' n' (inr h) =
    read_word_same (update m at v) m at' n' λ q k l. update_other m at v q (omega (arith, h, l))
