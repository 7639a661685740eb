-- ===== src/Common/Text.antt =====
-- Byte strings, and the functions of <string.h> and <stdio.h> that the programs call on them.
use Prim.Native.Nat.{ℕ, zero, suc, ◌+◌, ◌*◌, ◌/◌, ◌%◌, ◌≤◌, ◌<◌}
use Prim.Native.Char.{code}
use Prim.Native.String.{String}
use mathlib.Core.Path.{◌≡◌, refl, ap, sym, ◌∙◌}
use mathlib.Core.Logic.{◌≢◌, inl, inr}
use mathlib.Core.Bool.{Bool, true, false, ◌&&◌, ◌||◌}
use mathlib.Core.List.{List, [], ◌∷◌, ◌++◌, append-nil, append_assoc}
use native.Mathlib.Omega.{arith}
use sem.Common.Tests.{◌==◌, ltb, if◌then◌else◌, Bool-cases}
use sem.Common.Lists.{All, length}

abbrev pub Bytes : Type 0
Bytes = List ℕ

-- The code points of a literal, which are its bytes when the text is ASCII.
abbrev pub codes : String → Bytes
codes String.[] = []
codes (String.◌∷◌ c s) = code c ∷ codes s

-- The text in front of the first NUL, as every function on C strings sees it.
abbrev pub cstr : Bytes → Bytes
cstr [] = []
cstr (c ∷ s) = if c == 0 then [] else c ∷ cstr s

-- A text of the command line or of a path: it holds no NUL.
abbrev pub IsText : Bytes → Type 0
IsText = All (λ c. c ≢ 0)

pub cstr_text : (s : Bytes) → IsText s → cstr s ≡ s
cstr_text [] h = refl
cstr_text (c ∷ s) (hc, h) = ground (arith, cstr_text s h)

pub cstr-append : (s rest : Bytes) → IsText s → cstr (s ++ 0 ∷ rest) ≡ s
cstr-append [] rest h = refl
cstr-append (c ∷ s) rest (hc, h) = ground (arith, cstr-append s rest h)

-- `strcmp(a, b) == 0`
abbrev pub same : Bytes → Bytes → Bool
same [] [] = true
same [] (y ∷ b) = false
same (x ∷ a) [] = false
same (x ∷ a) (y ∷ b) = (x == y) && same a b

pub same_refl : (a : Bytes) → same a a ≡ true
same_refl [] = refl
same_refl (x ∷ a) = ground (arith, same_refl a)

pub same→eq : (a b : Bytes) → same a b ≡ true → a ≡ b
same→eq [] [] h = refl
same→eq [] (y ∷ b) h = ground arith
same→eq (x ∷ a) [] h = ground arith
same→eq (x ∷ a) (y ∷ b) h = ground (arith, same→eq a b)

pub ne→differ : (a b : Bytes) → a ≢ b → same a b ≡ false
ne→differ a b h = elim (Bool-cases (same a b)) [ inl e ↦ absurd (h (same→eq a b e)) | inr e ↦ e ]

-- The delimiters of strtok.
abbrev pub is_in : Bytes → ℕ → Bool
is_in [] c = false
is_in (d ∷ ds) c = (c == d) || is_in ds c

-- A token is handed out only if it is not empty.
abbrev pub emit : Bytes → List Bytes → List Bytes
emit [] ts = ts
emit (c ∷ t) ts = (c ∷ t) ∷ ts

-- What the successive calls strtok(s, delim), strtok(NULL, delim), … return before NULL; the last
-- argument is the token read so far.
unfoldable pub tokens_from : Bytes → Bytes → Bytes → List Bytes
tokens_from delim [] cur = emit cur []
tokens_from delim (c ∷ s) cur = elim (is_in delim c) [
  | true ↦ emit cur (tokens_from delim s [])
  | false ↦ tokens_from delim s (cur ++ c ∷ [])
]

abbrev pub tokens : Bytes → Bytes → List Bytes
tokens delim s = tokens_from delim s []

-- A word of a delimited text: not empty, and free of delimiters.
abbrev pub IsWord : Bytes → Bytes → Type 0
IsWord delim w = (w ≢ []) × All (λ c. is_in delim c ≡ false) w

pub tokens_from-mem :
    (delim s cur : Bytes) (c : ℕ)
    → is_in delim c ≡ true
    → tokens_from delim (c ∷ s) cur ≡ emit cur (tokens delim s)
unfolding tokens_from
tokens_from-mem delim s cur c h = rw (h, tokens_from)

pub tokens_from-not_mem :
    (delim s cur : Bytes) (c : ℕ)
    → is_in delim c ≡ false
    → tokens_from delim (c ∷ s) cur ≡ tokens_from delim s (cur ++ c ∷ [])
unfolding tokens_from
tokens_from-not_mem delim s cur c h = rw (h, tokens_from)

pub tokens_from-append :
    (delim w s cur : Bytes)
    → All (λ c. is_in delim c ≡ false) w
    → tokens_from delim (w ++ s) cur ≡ tokens_from delim s (cur ++ w)
tokens_from-append delim [] s cur h = rw append-nil
tokens_from-append delim (c ∷ w) s cur (hc, h) = rw (
  tokens_from-not_mem delim (w ++ s) cur c hc,
  tokens_from-append delim w s (cur ++ c ∷ []) h,
  append_assoc,
)

emit-cons : (cur : Bytes) (ts : List Bytes) → cur ≢ [] → emit cur ts ≡ cur ∷ ts
emit-cons [] ts h = absurd (h refl)
emit-cons (c ∷ cur) ts h = refl

-- A word in front of a delimiter is the next token.
pub tokens_word :
    (delim w s : Bytes) (d : ℕ)
    → IsWord delim w
    → is_in delim d ≡ true
    → tokens delim (w ++ d ∷ s) ≡ w ∷ tokens delim s
tokens_word delim w s d (full, clean) hd =
    rw (tokens_from-append delim w (d ∷ s) [] clean, tokens_from-mem delim s w d hd)
      (emit-cons w _ full)

-- A word at the end is the last token.
pub tokens_last : (delim w : Bytes) → IsWord delim w → tokens delim w ≡ w ∷ []
unfolding tokens_from
tokens_last delim w (full, clean) =
    ap (tokens delim) (sym (append-nil w))
    ∙ tokens_from-append delim w [] [] clean
    ∙ emit-cons w [] full

-- A delimiter in front is skipped.
pub tokens_skip :
    (delim s : Bytes) (d : ℕ) → is_in delim d ≡ true → tokens delim (d ∷ s) ≡ tokens delim s
tokens_skip delim s d hd = tokens_from-mem delim s [] d hd

-- The digits of `%d` for a number that is not negative, on fuel.
unfoldable pub digits : ℕ → ℕ → Bytes → Bytes
digits zero n out = out
digits (suc f) n out =
    let rest = digits f (n / 10) ((b'0' + n % 10) ∷ out) in
    if ltb n 10 then (b'0' + n) ∷ out else rest

abbrev pub decimal : ℕ → Bytes
decimal n = digits (suc n) n []

abbrev pub IsDigit : ℕ → Type 0
IsDigit c = (48 ≤ c) × (c ≤ 57)

digits-All : (f n : ℕ) (out : Bytes) → All IsDigit out → All IsDigit (digits f n out)
unfolding digits
digits-All zero n out h = h
digits-All (suc f) n out h = elim (Bool-cases (ltb n 10)) [
  | inl e ↦ (let k : n < 10 = ground arith in rw e ((omega arith, omega (arith, k)), h))
  | inr e ↦ rw e (digits-All f (n / 10) ((b'0' + n % 10) ∷ out) ((omega arith, omega arith), h))
]

pub decimal-All : (n : ℕ) → All IsDigit (decimal n)
decimal-All n = digits-All (suc n) n [] tt

abbrev pub power_of_ten : ℕ → ℕ
power_of_ten zero = 1
power_of_ten (suc k) = 10 * power_of_ten k

digits-length :
    (k f n : ℕ) (out : Bytes)
    → n < power_of_ten (suc k)
    → length (digits f n out) ≤ suc k + length out
unfolding digits
digits-length k zero n out h = omega arith
digits-length zero (suc f) n out h = let e : ltb n 10 ≡ true = ground arith in rw e (omega arith)
digits-length (suc k) (suc f) n out h = elim (Bool-cases (ltb n 10)) [
  | inl e ↦ rw e (omega arith)
  | inr e ↦
      rw e (omega (arith, digits-length k f (n / 10) ((b'0' + n % 10) ∷ out) (omega (arith, h))))
]

-- A number below a power of ten has no more digits than the exponent.
pub decimal-length : (k n : ℕ) → n < power_of_ten (suc k) → length (decimal n) ≤ suc k
decimal-length k n h = omega (arith, digits-length k (suc n) n [] h)
