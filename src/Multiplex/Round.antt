-- ===== src/Multiplex/Round.antt =====
-- A round of `s_register_clients`: a line comes in, and the buffer is clear again.
use sem.Common.{
  ℕ, zero, suc, ◌+◌, ◌-◌, ◌≤◌, ◌<◌, ◌≡◌, ◌≢◌, refl, sym, ap, ◌∙◌, true, false, [], ◌∷◌, ◌++◌,
  append_assoc, Bytes, codes, IsText, cstr-append, take, drop, drop-append, take-append, take_all,
  length, length-append, length-replicate, set, replicate, replicate-append, overlay, ◌==◌, ltb, ok,
  ◌>>=◌, arith, All-append,
}
use sem.Multiplex.System.{System}
use sem.Multiplex.Server.{buf_sz, Server, as_string, register_line, register_round}

abbrev pub zeros : ℕ → Bytes
zeros n = replicate n 0

drop-zeros : (k m : ℕ) → drop k (zeros (k + m)) ≡ zeros m
drop-zeros k m =
    ap (drop k) (sym (replicate-append k m 0))
    ∙ drop-append k (zeros k) (zeros m) (length-replicate k 0)

-- What is read into a clear buffer.
pub read_clear : (got : Bytes) (m : ℕ) → overlay 0 got (zeros (length got + m)) ≡ got ++ zeros m
read_clear got m =
    let e : 0 + length got ≡ length got = omega arith in
    rw e (ap (λ (l : Bytes). got ++ l) (drop-zeros (length got) m))

set-append : (s t : Bytes) (n c d : ℕ) → n ≡ length s → set (s ++ c ∷ t) n d ≡ s ++ d ∷ t
set-append [] t zero c d e = refl
set-append [] t (suc n) c d e = absurd (omega (arith, e))
set-append (x ∷ s) t zero c d e = absurd (omega (arith, e))
set-append (x ∷ s) t (suc n) c d e =
    ap (λ (l : Bytes). x ∷ l) (set-append s t n c d (omega (arith, e)))

-- memset clears the line, and the NUL behind it is there already.
clear_line :
    (line : Bytes) (n m : ℕ)
    → n ≡ length line
    → overlay 0 (zeros n) (line ++ 0 ∷ zeros m) ≡ zeros (n + suc m)
clear_line line n m e =
    ap (λ (l : Bytes). zeros n ++ l)
      (drop-append (0 + length (zeros n)) line (0 ∷ zeros m)
        (omega (arith, e, length-replicate {A = ℕ} n 0)))
    ∙ replicate-append n (suc m) 0

pub as_string-text : (s rest : Bytes) → IsText s → as_string (s ++ 0 ∷ rest) ≡ ok s
unfolding as_string
as_string-text s rest h =
    let n = length-append s (0 ∷ rest) in
    let t : ltb (length s) (length (s ++ 0 ∷ rest)) ≡ true = ground (arith, n) in
    rw (cstr-append s rest h, t) refl

round_of_text :
    (sys : System) (line : Bytes) (m : ℕ) (s : Server)
    → IsText line
    → s.request ≡ zeros (length (line ++ codes "\n") + suc m)
    → length (line ++ codes "\n") ≤ buf_sz
    → register_round sys (line ++ codes "\n") s ≡ (
        register_line sys line s >>= λ s'.
        ok (record s' { request = zeros (length line + suc (suc m)) }))
unfolding register_round
round_of_text sys line m s h e l =
    let got = line ++ codes "\n" in
    let n = length-append line (codes "\n") in
    let a : take buf_sz got ≡ got = take_all buf_sz got l in
    let b : overlay 0 got s.request ≡ got ++ 0 ∷ zeros m = rw e (read_clear got (suc m)) in
    let c : as_string (got ++ 0 ∷ zeros m) ≡ ok got =
      as_string-text got (zeros m) (All-append (λ c. c ≢ 0) line (codes "\n") h (omega arith)) in
    let d : (length got == 0) ≡ false = ground (arith, n) in
    let f : length got - 1 ≡ length line = omega (arith, n) in
    let g : take (length line) got ≡ line = take-append (length line) line (codes "\n") refl in
    let i : set (got ++ 0 ∷ zeros m) (length line) 0 ≡ line ++ 0 ∷ zeros (suc m) =
      ap (λ (x : Bytes). set x (length line) 0) (append_assoc line (codes "\n") (0 ∷ zeros m))
      ∙ set-append line (0 ∷ zeros m) (length line) b'\n' 0 refl in
    let j = clear_line line (length line) (suc m) refl in rw (a, b, c, d, f, g, i, j) refl

-- A line of text that fits the buffer is registered without its newline, and the buffer, clear
-- before, is clear again.
pub register_round-line :
    (sys : System) (line : Bytes) (s : Server)
    → IsText line
    → length line + 1 < buf_sz
    → s.request ≡ replicate buf_sz 0
    → register_round sys (line ++ codes "\n") s
      ≡ (register_line sys line s >>= λ s'. ok (record s' { request = replicate buf_sz 0 }))
register_round-line sys line s h l e =
    let n = length-append line (codes "\n") in
    let m : ℕ = buf_sz - length line - 2 in
    let a : length (line ++ codes "\n") + suc m ≡ buf_sz = omega (arith, n, l) in
    let b : length line + suc (suc m) ≡ buf_sz = omega (arith, l) in
    round_of_text sys line m s h (rw a e) (omega (arith, n, l)) ∙ rw b refl
