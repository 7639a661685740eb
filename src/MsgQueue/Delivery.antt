-- ===== src/MsgQueue/Delivery.antt =====
-- Which files arrive.
use sem.Common.{
  suc, Bool-cases, inl, inr, if◌then◌else◌, cstr_text, ℕ, ◌+◌, ◌<◌, ◌≤◌, ◌≡◌, ◌≢◌, refl, ap, ◌∙◌,
  true, false, Option, some, List, [], ◌∷◌, ◌++◌, append_assoc, append-nil, Bytes, cstr, take, drop,
  length, overlay, take_all, ◌==◌, ltb, leb, ok, fault, arith, All, length-append, drop_all,
  drop-append, take-append,
}
use sem.MsgQueue.Main.{
  Message, copy_text, send_round, send_loop, send, receive_loop, receive, main_program, msg_text_sz,
  std_msg_type, last_msg_type, reads_of,
}

overlay-front :
    (file old tail : Bytes) → length old ≡ length file → overlay 0 file (old ++ tail) ≡ file ++ tail
overlay-front file old tail n =
    ap (λ (x : Bytes). file ++ x) (drop-append (0 + length file) old tail (omega (arith, n)))

overlay-all : (block buf : Bytes) → length buf ≡ length block → overlay 0 block buf ≡ block
overlay-all block buf n =
    ap (λ (x : Bytes). block ++ x) (drop_all (0 + length block) buf (omega (arith, n)))
    ∙ append-nil block

first_read :
    (file : Bytes)
    → 0 < length file
    → (rest : List (Option Bytes)) × (reads_of (length file) file
        ≡ some (take msg_text_sz file) ∷ rest)
first_read [] h = absurd (omega arith)
first_read (c ∷ file) h = (reads_of (length file) (drop msg_text_sz (c ∷ file)), refl)

copy_text-fault : (mtext block : Bytes) → All (λ c. c ≢ 0) block → copy_text mtext block ≡ fault
unfolding copy_text
copy_text-fault mtext block h =
    let t : ltb (length (cstr block)) (length block) ≡ false =
      rw (cstr_text block h) (ground arith) in
    rw t refl

cstr-front : (file tail : Bytes) → cstr (file ++ 0 ∷ tail) ≡ cstr file
cstr-front [] tail = refl
cstr-front (c ∷ file) tail = ground (arith, cstr-front file tail)

length-cstr : (file : Bytes) → length (cstr file) ≤ length file
length-cstr [] = omega arith
length-cstr (c ∷ file) = ground (arith, length-cstr file)

copy_text-ok :
    (mtext file tail : Bytes)
    → copy_text mtext (file ++ 0 ∷ tail) ≡ ok (overlay 0 (cstr file ++ 0 ∷ []) mtext)
unfolding copy_text
copy_text-ok mtext file tail =
    let n = length-append file (0 ∷ tail) in
    let t : ltb (length (cstr file)) (length (file ++ 0 ∷ tail)) ≡ true =
      ground (arith, n, length-cstr file) in
    rw (cstr-front file tail, t) refl

send_loop-fault :
    (limit : ℕ) (got : Bytes) (reads : List (Option Bytes)) (buf mtext : Bytes)
    → copy_text mtext (overlay 0 got buf) ≡ fault
    → send_loop limit (some got ∷ reads) buf mtext ≡ fault
unfolding send_loop
send_loop-fault limit got reads buf mtext h = rw (h, send_loop) refl

send_loop-last :
    (limit : ℕ) (got : Bytes) (reads : List (Option Bytes)) (buf mtext text : Bytes)
    {ms : List Message}
    → copy_text mtext (overlay 0 got buf) ≡ ok text
    → send_round limit (length got) text ≡ (ms, false)
    → send_loop limit (some got ∷ reads) buf mtext ≡ ok ms
unfolding send_loop
send_loop-last limit got reads buf mtext text h e = rw (h, send_loop, e) refl

-- A file that begins with 128 bytes of text stops the program: strcpy finds no NUL in the buffer.
pub full_block-overruns :
    (limit : ℕ) (block rest mtext buf : Bytes)
    → length block ≡ 128
    → All (λ c. c ≢ 0) block
    → length buf ≡ 128
    → main_program limit (some (block ++ rest)) true buf mtext ≡ fault
unfolding main_program send
full_block-overruns limit block rest mtext buf n h k =
    let m = length-append block rest in
    let (reads, e) = first_read (block ++ rest) (omega (arith, m, n)) in
    let t : take msg_text_sz (block ++ rest) ≡ block = take-append msg_text_sz block rest n in
    let f : send_loop limit (some block ∷ reads) buf mtext ≡ fault =
      send_loop-fault limit block reads buf mtext
        (rw (overlay-all block buf (omega (arith, n, k))) (copy_text-fault mtext block h)) in
    rw (main_program, e, t, f) refl

abbrev text_and_last : Bytes → List Message
text_and_last file =
    record { mtype = std_msg_type; mtext = file }
    ∷ record { mtype = last_msg_type; mtext = [] }
    ∷ []

overlaid :
    (mtext text : Bytes)
    → overlay 0 (text ++ 0 ∷ []) mtext ≡ text ++ 0 ∷ drop (suc (length text)) mtext
overlaid mtext text =
    let n : 0 + length (text ++ 0 ∷ []) ≡ suc (length text) =
      omega (arith, length-append text (0 ∷ [])) in
    ap (λ (k : ℕ). (text ++ 0 ∷ []) ++ drop k mtext) n
    ∙ append_assoc text (0 ∷ []) (drop (suc (length text)) mtext)

send_round-short :
    (limit : ℕ) (file text out : Bytes)
    → 0 < length file
    → length file < 128
    → 128 ≤ limit
    → take (length file) text ≡ out
    → send_round limit (length file) text ≡ (text_and_last out, false)
unfolding send_round
send_round-short limit file text out p n l h =
    let a : (length file == msg_text_sz) ≡ false = ground arith in
    let b : (length file == 0) ≡ false = ground arith in
    let c : leb (length file) limit ≡ true = ground arith in
    let d : leb 0 limit ≡ true = ground arith in rw (a, b, c, d, h) refl

receive-text : (file : Bytes) → receive true (text_and_last file) ≡ ok (file, true)
unfolding receive receive_loop
receive-text file = refl

-- What arrives of a file: behind its first NUL stand the bytes that the memory of the message holds.
abbrev pub delivered : Bytes → Bytes → Bytes
delivered [] mtext = []
delivered (c ∷ file) [] = []
delivered (c ∷ file) (x ∷ mtext) =
    let rest = delivered file mtext in if c == 0 then 0 ∷ take (length file) mtext else c ∷ rest

copied :
    (file mtext : Bytes)
    → length file < length mtext
    → take (length file) (cstr file ++ 0 ∷ drop (suc (length (cstr file))) mtext)
      ≡ delivered file mtext
copied [] mtext h = refl
copied (c ∷ file) [] h = absurd (omega (arith, h))
copied (c ∷ file) (x ∷ mtext) h = elim (Bool-cases (c == 0)) [
  | inl e ↦ rw e refl
  | inr e ↦ rw e (ap (λ (l : Bytes). c ∷ l) (copied file mtext (omega (arith, h))))
]

-- A file that one read gives whole is sent as one message and received.
one_message :
    (limit : ℕ) (file old tail mtext out : Bytes)
    → 0 < length file
    → length file < 128
    → length old ≡ length file
    → 128 ≤ limit
    → take (length file) (overlay 0 (cstr file ++ 0 ∷ []) mtext) ≡ out
    → main_program limit (some file) true (old ++ 0 ∷ tail) mtext ≡ ok (out, true)
unfolding main_program send
one_message limit file old tail mtext out p n k l u =
    let (reads, e) = first_read file p in
    let t : take msg_text_sz file ≡ file = take_all msg_text_sz file (omega (arith, n)) in
    let text = overlay 0 (cstr file ++ 0 ∷ []) mtext in
    let f : send_loop limit (some file ∷ reads) (old ++ 0 ∷ tail) mtext ≡ ok (text_and_last out) =
      send_loop-last limit file reads (old ++ 0 ∷ tail) mtext text
        (rw (overlay-front file old (0 ∷ tail) k) (copy_text-ok mtext file tail))
        (send_round-short limit file text out p n l u) in
    rw (main_program, e, t, f) (receive-text out)

-- Of a file that is not empty, of fewer than 128 bytes, when the byte of the buffer behind it was NUL and the queue takes
-- messages of 128 bytes, the receiver, which then has left its loop, writes as many bytes: those up to
-- the first NUL, and behind it what the memory of the message held before.
pub short_file-delivered :
    (limit : ℕ) (file old tail mtext : Bytes)
    → 0 < length file
    → length file < 128
    → length old ≡ length file
    → length mtext ≡ 128
    → 128 ≤ limit
    → main_program limit (some file) true (old ++ 0 ∷ tail) mtext ≡ ok (delivered file mtext, true)
short_file-delivered limit file old tail mtext p n k m l =
    one_message limit file old tail mtext (delivered file mtext) p n k l (
      ap (take (length file)) (overlaid mtext (cstr file))
      ∙ copied file mtext (omega (arith, n, m)))

-- A text that is not empty, of fewer than 128 bytes, is delivered, and the receiver has left its loop, when the byte of
-- the buffer behind the text was NUL and the queue takes messages of 128 bytes.
pub short_text-arrives :
    (limit : ℕ) (file old tail mtext : Bytes)
    → 0 < length file
    → length file < 128
    → length old ≡ length file
    → 128 ≤ limit
    → All (λ c. c ≢ 0) file
    → main_program limit (some file) true (old ++ 0 ∷ tail) mtext ≡ ok (file, true)
short_text-arrives limit file old tail mtext p n k l h =
    one_message limit file old tail mtext file p n k l (
      ap (λ (x : Bytes). take (length file) (overlay 0 (x ++ 0 ∷ []) mtext)) (cstr_text file h)
      ∙ ap (take (length file)) (overlaid mtext file)
      ∙ take-append (length file) file (0 ∷ drop (suc (length file)) mtext) refl)
