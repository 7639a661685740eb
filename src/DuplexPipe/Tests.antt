-- ===== src/DuplexPipe/Tests.antt =====
-- Runs of the duplex pipe on small files.
use sem.Common.{
  ℕ, ◌≡◌, ◌≢◌, refl, true, [], ◌∷◌, Bytes, codes, arith, ok, replicate, length-replicate,
}
use sem.DuplexPipe.Pipe.{buf_sz, Receiver, Pipe, Files, main_program, p_snd, snd_loop, rcv_round}
use sem.DuplexPipe.RoundTrip.{main_program_echoes, header_alone}

-- A pipe whose buffer is shorter than in the program.
abbrev small_pipe : Pipe
small_pipe = record { buf = record { bytes = codes "........" }; fp_r = []; fp_w = [] }

one_packet : p_snd small_pipe (codes "abc") ≡ (1 ∷ 1 ∷ 4 ∷ codes "abc") ∷ []
unfolding p_snd snd_loop
one_packet = refl

abbrev every_file_hello : Files
every_file_hello path = codes "hello"

main_program_echoes_example :
    (files' : Files) × (main_program 3 (codes "a") (codes "b") true true true every_file_hello
      ≡ ok files')
    × (files' (codes "b") ≡ codes "hello")
    × (files' (codes "a") ≡ codes "hello")
    × ((other : Bytes) → other ≢ codes "a" → other ≢ codes "b" → files' other ≡ codes "hello")
main_program_echoes_example =
    main_program_echoes (codes "a") (codes "b") every_file_hello (λ e. ground arith)

abbrev fresh : Receiver
fresh = record { i = 1; buffer = replicate buf_sz 0; out = [] }

header_alone_example :
    (buffer : Bytes) × (rcv_round (1 ∷ 1 ∷ 4 ∷ []) fresh
      ≡ ok (record { i = 2; buffer = buffer; out = 0 ∷ 0 ∷ 0 ∷ [] }))
header_alone_example =
    header_alone (codes "abc") fresh (omega arith) (length-replicate {A = ℕ} buf_sz 0)
