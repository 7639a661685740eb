-- ===== src/SigTransf/Bits.antt =====
-- The mask `i` of the child's inner loop takes the values 128, 64, …, 1, and the parent adds up the
-- bits of the byte from the highest on.
use Prim.Native.Nat.{bit_and}
use mathlib.Core.Path.{subst, sym}
use sem.Common.{
  ℕ, zero, suc, ◌+◌, ◌*◌, ◌/◌, ◌%◌, ◌<◌, ◌≡◌, refl, Bool, true, false, dec_lt, Bool-cases, arith,
  ◌==◌, ◌⊎◌, inl, inr,
}

-- A value of the mask.
abbrev pub IsMask : ℕ → Type 0
IsMask i = (i ≡ 128) ⊎ (i ≡ 64) ⊎ (i ≡ 32) ⊎ (i ≡ 16) ⊎ (i ≡ 8) ⊎ (i ≡ 4) ⊎ (i ≡ 2) ⊎ (i ≡ 1)

-- What the bits of `c` from `i` on amount to.
abbrev pub top : ℕ → ℕ → ℕ
top i c = c / i * i

-- The test `i & c` reads the bit of `i`.
bit_agrees : ℕ → ℕ → Bool
bit_agrees i c = elim (bit_and i c == 0) [ true ↦ c / i % 2 == 0 | false ↦ c / i % 2 == 1 ]

-- It does so for the mask `i` at every byte below a bound.
mask_agrees : ℕ → ℕ → Bool
mask_agrees i zero = true
mask_agrees i (suc bound) = elim (bit_agrees i bound) [ true ↦ mask_agrees i bound | false ↦ false ]

bit_agrees-of_mask :
    (i bound byte : ℕ) → byte < bound → mask_agrees i bound ≡ true → bit_agrees i byte ≡ true
unfolding mask_agrees
bit_agrees-of_mask i zero byte below table = absurd (omega arith)
bit_agrees-of_mask i (suc bound) byte below table = elim (dec_lt byte bound) [
  | yes lower ↦
      bit_agrees-of_mask i bound byte lower (ground (arith, Bool-cases (bit_agrees i bound)))
  | no last ↦
      let e : byte ≡ bound = omega arith in rw e (ground (arith, Bool-cases (bit_agrees i bound)))
]

-- A property of the eight masks.
IsMask-elim :
    (P : ℕ → Type 0) → P 128 → P 64 → P 32 → P 16 → P 8 → P 4 → P 2 → P 1 → (i : ℕ) → IsMask i → P i
IsMask-elim P a b c d e f g h i (inl q) = subst P (sym q) a
IsMask-elim P a b c d e f g h i (inr (inl q)) = subst P (sym q) b
IsMask-elim P a b c d e f g h i (inr (inr (inl q))) = subst P (sym q) c
IsMask-elim P a b c d e f g h i (inr (inr (inr (inl q)))) = subst P (sym q) d
IsMask-elim P a b c d e f g h i (inr (inr (inr (inr (inl q))))) = subst P (sym q) e
IsMask-elim P a b c d e f g h i (inr (inr (inr (inr (inr (inl q)))))) = subst P (sym q) f
IsMask-elim P a b c d e f g h i (inr (inr (inr (inr (inr (inr (inl q))))))) = subst P (sym q) g
IsMask-elim P a b c d e f g h i (inr (inr (inr (inr (inr (inr (inr q))))))) = subst P (sym q) h

mask_table : (i : ℕ) → IsMask i → mask_agrees i 256 ≡ true
unfolding mask_agrees bit_agrees
mask_table = IsMask-elim (λ i. mask_agrees i 256 ≡ true) refl refl refl refl refl refl refl refl

top_of_even : (i c : ℕ) → IsMask i → c / i % 2 ≡ 0 → top i c ≡ top (2 * i) c
top_of_even i c m =
    IsMask-elim (λ j. c / j % 2 ≡ 0 → top j c ≡ top (2 * j) c) (λ e. omega arith) (λ e. omega arith)
      (λ e. omega arith) (λ e. omega arith) (λ e. omega arith) (λ e. omega arith) (λ e. omega arith)
      (λ e. omega arith) i m

top_of_odd : (i c : ℕ) → IsMask i → c / i % 2 ≡ 1 → top i c ≡ top (2 * i) c + i
top_of_odd i c m =
    IsMask-elim (λ j. c / j % 2 ≡ 1 → top j c ≡ top (2 * j) c + j) (λ e. omega arith)
      (λ e. omega arith) (λ e. omega arith) (λ e. omega arith) (λ e. omega arith) (λ e. omega arith)
      (λ e. omega arith) (λ e. omega arith) i m

-- A zero bit adds nothing to what stands above it, and a one adds the mask.
pub top_zero : (i c : ℕ) → IsMask i → c < 256 → (bit_and i c == 0) ≡ true → top i c ≡ top (2 * i) c
unfolding bit_agrees
top_zero i c m h e =
    top_of_even i c m (ground (arith, bit_agrees-of_mask i 256 c h (mask_table i m)))

pub top_one :
    (i c : ℕ) → IsMask i → c < 256 → (bit_and i c == 0) ≡ false → top i c ≡ top (2 * i) c + i
unfolding bit_agrees
top_one i c m h e = top_of_odd i c m (ground (arith, bit_agrees-of_mask i 256 c h (mask_table i m)))

-- The masks follow one another by halving, until 1 halves to 0.
pub IsMask-half : (i : ℕ) → IsMask i → (i / 2 == 0) ≡ false → IsMask (i / 2) × (2 * (i / 2) ≡ i)
IsMask-half i m e = ground arith

pub IsMask-one : (i : ℕ) → IsMask i → (i / 2 == 0) ≡ true → i ≡ 1
IsMask-one i m e = ground arith
