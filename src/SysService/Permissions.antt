-- ===== src/SysService/Permissions.antt =====
-- The text that the loops of `oct_to_rwx` make of a file mode.
use sem.Common.{
  ℕ, ◌+◌, ◌/◌, ◌%◌, ◌^◌, ◌<◌, ◌≡◌, refl, ap, ◌∙◌, Bool, true, false, not, [], ◌∷◌, ◌++◌, Bytes,
  codes, ◌==◌, ltb, if◌then◌else◌, arith,
}
use sem.SysService.Config.{rwx_loop}

-- The three characters of an octal digit, by its value.
abbrev pub rwx_digit : ℕ → Bytes
rwx_digit d =
    (if ltb d 4 then b'-' else b'r')
    ∷ (if ltb (d % 4) 2 then b'-' else b'w')
    ∷ (if d % 2 == 0 then b'-' else b'x')
    ∷ []

-- A bit that is looked at where the text has a dash.
abbrev bit_char : ℕ → ℕ → ℕ → ℕ
bit_char n shift c = if n / 2 ^ shift % 2 == 1 then c else b'-'

if-apply : (b : Bool) (f : ℕ → Bytes) (x y : ℕ) → (if b then f x else f y) ≡ f (if b then x else y)
if-apply true f x y = refl
if-apply false f x y = refl

abbrev text9 : ℕ → ℕ → ℕ → ℕ → ℕ → ℕ → ℕ → ℕ → ℕ → Bytes
text9 a b c d e f g h i = a ∷ b ∷ c ∷ d ∷ e ∷ f ∷ g ∷ h ∷ i ∷ []

-- The nine rounds of the loops, each of which writes one place.
rwx_loop-bits :
    (n : ℕ)
    → rwx_loop 9 0 n (codes "---------")
      ≡ text9
          (bit_char n 8 b'r')
          (bit_char n 7 b'w')
          (bit_char n 6 b'x')
          (bit_char n 5 b'r')
          (bit_char n 4 b'w')
          (bit_char n 3 b'x')
          (bit_char n 2 b'r')
          (bit_char n 1 b'w')
          (bit_char n 0 b'x')
unfolding rwx_loop
rwx_loop-bits n =
    let c0 = bit_char n 0 b'x' in
    let c1 = bit_char n 1 b'w' in
    let c2 = bit_char n 2 b'r' in
    let c3 = bit_char n 3 b'x' in
    let c4 = bit_char n 4 b'w' in
    let c5 = bit_char n 5 b'r' in
    let c6 = bit_char n 6 b'x' in
    let c7 = bit_char n 7 b'w' in
    let bit : ℕ → Bool = λ s. n / 2 ^ s % 2 == 1 in
    let d : ℕ = b'-' in
    ap (rwx_loop 8 1 n) (if-apply (bit 0) (λ z. text9 d d d d d d d d z) b'x' d)
    ∙ ap (rwx_loop 7 2 n) (if-apply (bit 1) (λ z. text9 d d d d d d d z c0) b'w' d)
    ∙ ap (rwx_loop 6 3 n) (if-apply (bit 2) (λ z. text9 d d d d d d z c1 c0) b'r' d)
    ∙ ap (rwx_loop 5 4 n) (if-apply (bit 3) (λ z. text9 d d d d d z c2 c1 c0) b'x' d)
    ∙ ap (rwx_loop 4 5 n) (if-apply (bit 4) (λ z. text9 d d d d z c3 c2 c1 c0) b'w' d)
    ∙ ap (rwx_loop 3 6 n) (if-apply (bit 5) (λ z. text9 d d d z c4 c3 c2 c1 c0) b'r' d)
    ∙ ap (rwx_loop 2 7 n) (if-apply (bit 6) (λ z. text9 d d z c5 c4 c3 c2 c1 c0) b'x' d)
    ∙ ap (rwx_loop 1 8 n) (if-apply (bit 7) (λ z. text9 d z c6 c5 c4 c3 c2 c1 c0) b'w' d)
    ∙ if-apply (bit 8) (λ z. text9 z c7 c6 c5 c4 c3 c2 c1 c0) b'r' d

-- The three bits of a digit.
digit_bits :
    (n k : ℕ) (d : ℕ)
    → n / 2 ^ (k + 2) % 2 ≡ d / 4
    → n / 2 ^ (k + 1) % 2 ≡ d / 2 % 2
    → n / 2 ^ k % 2 ≡ d % 2
    → d < 8
    → bit_char n (k + 2) b'r' ∷ bit_char n (k + 1) b'w' ∷ bit_char n k b'x' ∷ [] ≡ rwx_digit d
digit_bits n k d a b c l =
    let r : (n / 2 ^ (k + 2) % 2 == 1) ≡ not (ltb d 4) = ground arith in
    let w : (n / 2 ^ (k + 1) % 2 == 1) ≡ not (ltb (d % 4) 2) = ground arith in
    let x : (n / 2 ^ k % 2 == 1) ≡ not (d % 2 == 0) = ground arith in rw (r, w, x) (ground arith)

-- For every mode the loops of `oct_to_rwx` write its three lowest octal digits, the highest first,
-- whatever stands above them.
pub rwx_loop-digits :
    (n : ℕ)
    → rwx_loop 9 0 n (codes "---------")
      ≡ rwx_digit (n / 64 % 8) ++ (rwx_digit (n / 8 % 8) ++ rwx_digit (n % 8))
rwx_loop-digits n =
    let a = digit_bits n 6 (n / 64 % 8) (omega arith) (omega arith) (omega arith) (omega arith) in
    let b = digit_bits n 3 (n / 8 % 8) (omega arith) (omega arith) (omega arith) (omega arith) in
    let c = digit_bits n 0 (n % 8) (omega arith) (omega arith) (omega arith) (omega arith) in
    rwx_loop-bits n
    ∙ ap (λ (l : Bytes). l ++ text6) a
    ∙ ap (λ (l : Bytes). rwx_digit (n / 64 % 8) ++ (l ++ text3)) b
    ∙ ap (λ (l : Bytes). rwx_digit (n / 64 % 8) ++ (rwx_digit (n / 8 % 8) ++ l)) c
  where
    text3 : Bytes
    text3 = bit_char n 2 b'r' ∷ bit_char n 1 b'w' ∷ bit_char n 0 b'x' ∷ []

    text6 : Bytes
    text6 = bit_char n 5 b'r' ∷ bit_char n 4 b'w' ∷ bit_char n 3 b'x' ∷ text3
