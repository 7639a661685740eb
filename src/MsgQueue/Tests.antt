-- ===== src/MsgQueue/Tests.antt =====
-- A short text, and a long one.
use sem.Common.{
  ℕ, zero, suc, ◌≡◌, ◌≢◌, refl, true, some, ◌∷◌, ◌++◌, Bytes, codes, replicate, length-replicate,
  ok, fault, arith, All,
}
use sem.MsgQueue.Main.{main_program}
use sem.MsgQueue.Delivery.{full_block-overruns, short_text-arrives, delivered, short_file-delivered}

abbrev fresh : ℕ → Bytes
fresh n = replicate n 0

short_text-arrives_example :
    main_program 8192 (some (codes "hello")) true (fresh 5 ++ 0 ∷ fresh 122) (fresh 128)
    ≡ ok (codes "hello", true)
short_text-arrives_example =
    short_text-arrives 8192 (codes "hello") (fresh 5) (fresh 122) (fresh 128) (omega arith)
      (omega arith) refl (omega arith) (omega arith)

abbrev long : ℕ → Bytes
long n = replicate n b'x'

long-IsText : (n : ℕ) → All (λ c. c ≢ 0) (long n)
long-IsText zero = tt
long-IsText (suc n) = (omega arith, long-IsText n)

full_block-overruns_example :
    main_program 8192 (some (long 128 ++ codes "y")) true (fresh 128) (fresh 128) ≡ fault
full_block-overruns_example =
    full_block-overruns 8192 (long 128) (codes "y") (fresh 128) (fresh 128)
      (length-replicate {A = ℕ} 128 b'x') (long-IsText 128) (length-replicate {A = ℕ} 128 0)

short_file-delivered_example :
    main_program 8192
      (some (codes "a" ++ 0 ∷ codes "bc"))
      true
      (fresh 4 ++ 0 ∷ fresh 123)
      (long 128)
    ≡ ok (delivered (codes "a" ++ 0 ∷ codes "bc") (long 128), true)
short_file-delivered_example =
    short_file-delivered 8192 (codes "a" ++ 0 ∷ codes "bc") (fresh 4) (fresh 123) (long 128)
      (omega arith) (omega arith) refl (length-replicate {A = ℕ} 128 b'x') (omega arith)

-- The bytes behind the NUL are lost.
bytes_lost : delivered (codes "a" ++ 0 ∷ codes "bc") (long 128) ≡ codes "a" ++ 0 ∷ codes "xx"
bytes_lost = refl
