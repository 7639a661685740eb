-- ===== src/Fifo/System/Stream.antt =====
-- The bytes in flight as messages: `Framed closed pipe payload` says that the pipe holds whole
-- messages which carry `payload`, and that a short one stands only at the end of a closed stream.
use sem.Common.{
  ◌<◌, ◌≡◌, refl, sym, ap, Bool, true, false, [], ◌∷◌, ◌++◌, append-nil, append_assoc, Bytes,
  length,
}

pub data Framed (closed : Bool) : Bytes → Bytes → Type 0 where
  none_left : Framed closed [] []
  full :
      {pipe payload pipe' payload' : Bytes} (b : Bytes)
      → length b ≡ 127
      → Framed closed pipe payload
      → pipe' ≡ 127 ∷ (b ++ pipe)
      → payload' ≡ b ++ payload
      → Framed closed pipe' payload'
  last :
      {pipe' : Bytes} (b : Bytes)
      → closed ≡ true
      → 0 < length b
      → length b < 127
      → pipe' ≡ length b ∷ b
      → Framed closed pipe' b

-- A full message joins an open stream at its end.
pub Framed-full :
    {c : Bool} {pipe payload : Bytes} (b : Bytes)
    → c ≡ false
    → Framed c pipe payload
    → length b ≡ 127
    → Framed c (pipe ++ 127 ∷ b) (payload ++ b)
Framed-full b open_ none_left h =
    full b h none_left (ap (λ (l : Bytes). 127 ∷ l) (sym (append-nil b))) (sym (append-nil b))
Framed-full b open_ (full a e f p q) h =
    full a e (Framed-full b open_ f h) (rw (p, append_assoc)) (rw (q, append_assoc))
Framed-full b open_ (last a e _ _ _) h = absurd (cc)

-- So does a short message, which closes the stream.
pub Framed-last :
    {c : Bool} {pipe payload : Bytes} (b : Bytes)
    → c ≡ false
    → Framed c pipe payload
    → 0 < length b
    → length b < 127
    → Framed true (pipe ++ length b ∷ b) (payload ++ b)
Framed-last b open_ none_left h k = last b refl h k refl
Framed-last b open_ (full a e f p q) h k =
    full a e (Framed-last b open_ f h k) (rw (p, append_assoc)) (rw (q, append_assoc))
Framed-last b open_ (last a e _ _ _) h k = absurd (cc)

-- And the end of the file closes it as it is.
pub Framed-close :
    {c : Bool} {pipe payload : Bytes} → Framed c pipe payload → Framed true pipe payload
Framed-close none_left = none_left
Framed-close (full a e f p q) = full a e (Framed-close f) p q
Framed-close (last a e h k p) = last a refl h k p
