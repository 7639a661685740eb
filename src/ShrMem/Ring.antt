-- ===== src/ShrMem/Ring.antt =====
-- The ring buffer of src/sm_main.c as a window of the file: the bytes behind the `p` that are written
-- and in front of the `q` that are sent stand at their positions modulo the size of the ring.
use sem.Common.{
  ℕ, suc, ◌+◌, ◌%◌, ◌≤◌, ◌<◌, ◌≡◌, ◌≢◌, sym, ◌∙◌, [], ◌∷◌, ◌++◌, Bytes, length, take, drop, set,
  get_or, ◌==◌, Bool-cases, inl, inr, arith, length-set, get_or-set_self, get_or-set_ne, take-suc,
  drop-eq-cons,
}
use sem.ShrMem.Main.{ring_sz}

pub record IsWindow (file src dst buf : Bytes) (s_ind r_ind p q : ℕ) : Type 0 where
  pub written : dst ≡ take p file
  pub rest : src ≡ drop q file
  pub sent : q ≤ length file
  pub order : p ≤ q
  pub size : length buf ≡ ring_sz
  pub s_at : s_ind ≡ q % ring_sz
  pub r_at : r_ind ≡ p % ring_sz
  pub stored : (i : ℕ) → p ≤ i → i < q → get_or buf (i % ring_sz) 0 ≡ get_or file i 0

put_stored :
    (file buf : Bytes) (p q i c : ℕ)
    → length buf ≡ ring_sz
    → q < p + ring_sz
    → ((j : ℕ) → p ≤ j → j < q → get_or buf (j % ring_sz) 0 ≡ get_or file j 0)
    → get_or file q 0 ≡ c
    → p ≤ i
    → i < suc q
    → get_or (set buf (q % ring_sz) c) (i % ring_sz) 0 ≡ get_or file i 0
put_stored file buf p q i c n room old e a b = elim (Bool-cases (i == q)) [
  | inl h ↦
      (let k : i ≡ q = ground arith in
        rw k (get_or-set_self buf (q % ring_sz) c 0 (omega (arith, n)) ∙ sym e))
  | inr h ↦
      (let k : i ≢ q = ground arith in
        let l : q % ring_sz ≢ i % ring_sz = omega (arith, k) in
        get_or-set_ne buf (q % ring_sz) (i % ring_sz) c 0 l ∙ old i a (omega (arith, k)))
]

-- A byte of the file that finds room goes behind the others.
pub put-IsWindow :
    (file src dst buf : Bytes) (s_ind r_ind p q c : ℕ)
    → IsWindow file (c ∷ src) dst buf s_ind r_ind p q
    → q < p + ring_sz
    → IsWindow file src dst (set buf s_ind c) ((s_ind + 1) % ring_sz) r_ind p (suc q)
put-IsWindow file src dst buf s_ind r_ind p q c v room =
    let (a, b, d) = drop-eq-cons q file {x = c} {ys = src} 0 (sym v.rest) in
    record {
      written = v.written;
      rest = sym d;
      sent = omega (arith, a);
      order = omega (arith, v.order);
      size = length-set buf s_ind c ∙ v.size;
      s_at = omega (arith, v.s_at);
      r_at = v.r_at;
      stored = λ i x y. rw v.s_at (put_stored file buf p q i c v.size room v.stored b x y);
    }

-- The first byte of a ring that is not empty is the next of the file.
pub get-IsWindow :
    (file src dst buf : Bytes) (s_ind r_ind p q : ℕ)
    → IsWindow file src dst buf s_ind r_ind p q
    → p < q
    → IsWindow file src (dst ++ get_or buf r_ind 0 ∷ []) buf s_ind ((r_ind + 1) % ring_sz) (suc p) q
get-IsWindow file src dst buf s_ind r_ind p q v full =
    let first : get_or buf r_ind 0 ≡ get_or file p 0 = rw v.r_at (v.stored p (omega arith) full) in
    record {
      written = rw (v.written, first) (sym (take-suc p file 0 (omega (arith, full, v.sent))));
      rest = v.rest;
      sent = v.sent;
      order = omega (arith, full);
      size = v.size;
      s_at = v.s_at;
      r_at = omega (arith, v.r_at);
      stored = λ i x y. v.stored i (omega (arith, x)) y;
    }
