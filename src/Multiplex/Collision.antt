-- ===== src/Multiplex/Collision.antt =====
-- Two clients whose commands come in with one read.
use sem.Common.{
  ◌+◌, ◌<◌, ◌≡◌, ◌≢◌, refl, ap, ◌∙◌, some, [], ◌∷◌, ◌++◌, append_assoc, Bytes, codes, IsText,
  get_elem?, length, length-append, replicate, ok, arith, All, All-append,
}
use sem.Multiplex.System.{System}
use sem.Multiplex.Server.{
  buf_sz, Client, Server, s_check_reg_request, register_line, register_round,
}
use sem.Multiplex.Client.{cn_fifo_rel, reg_command}
use sem.Multiplex.Names.{
  IsNameChar, base_name-path, reg_line, path-IsText, reg_line-IsText, tokens-more_words,
  tokens-two_paths, length-reg_line,
}
use sem.Multiplex.Entry.{second, check_words-rejects}
use sem.Multiplex.Registration.{print_into-ok}
use sem.Multiplex.Round.{register_round-line}

-- The last name of the first command, as the server takes it.
abbrev run_on : Bytes → Bytes
run_on rx = rx ++ codes "\nREGISTER"

abbrev both : Bytes → Bytes → Bytes → Bytes → Bytes
both tx rx tx' rx' =
    reg_line tx (run_on rx) ++ b' ' ∷ ((cn_fifo_rel ++ tx') ++ b' ' ∷ (cn_fifo_rel ++ rx'))

both-commands :
    (tx rx tx' rx' : Bytes)
    → reg_command (cn_fifo_rel ++ tx) (cn_fifo_rel ++ rx)
        ++ reg_command (cn_fifo_rel ++ tx') (cn_fifo_rel ++ rx')
      ≡ both tx rx tx' rx' ++ codes "\n"
both-commands tx rx tx' rx' = simp append_assoc

both-length :
    (tx rx tx' rx' : Bytes)
    → length (both tx rx tx' rx') ≡ 109 + length tx + length rx + length tx' + length rx'
both-length tx rx tx' rx' =
    let rest : Bytes = b' ' ∷ ((cn_fifo_rel ++ tx') ++ b' ' ∷ (cn_fifo_rel ++ rx')) in
    let a : length (both tx rx tx' rx') ≡ length (reg_line tx (run_on rx)) + length rest =
      length-append (reg_line tx (run_on rx)) rest in
    let b = length-reg_line tx (run_on rx) in
    let c = length-append rx (codes "\nREGISTER") in
    let d : length rest ≡ 46 + length tx' + length rx' =
      omega (arith, length-append tx' (b' ' ∷ (cn_fifo_rel ++ rx'))) in
    a ∙ omega (arith, b, c, d)

-- Clear again, with the names of a client that has not registered.
abbrev pub turned_away :
    (s : Server) (c : Client) → get_elem? s.clients s.client_max ≡ some c → Bytes → Bytes → Server
turned_away s c there tx rx = record (second s c there tx (run_on rx)) {
  request = replicate buf_sz 0;
}

module _ (sys : System) (s : Server) (c : Client)
    (there : get_elem? s.clients s.client_max ≡ some c) (tx rx tx' rx' : Bytes)
    (h : All IsNameChar tx) (k : All IsNameChar rx) (h' : All IsNameChar tx')
    (k' : All IsNameChar rx') (l : length tx < 200) (m : length rx < 200) (l' : length tx' < 200)
    (m' : length rx' < 200) where
  run_on-All : All IsNameChar (run_on rx)
  run_on-All = All-append IsNameChar rx (codes "\nREGISTER") k (omega arith)

  register_line-rejects :
      register_line sys (both tx rx tx' rx') s ≡ ok (second s c there tx (run_on rx))
  unfolding register_line s_check_reg_request
  register_line-rejects =
      rw
        (
          print_into-ok buf_sz (both tx rx tx' rx')
              (omega (arith, both-length tx rx tx' rx', l, m, l', m')),
          tokens-more_words tx (run_on rx) ((cn_fifo_rel ++ tx') ++ b' ' ∷ (cn_fifo_rel ++ rx')) h
              run_on-All,
          tokens-two_paths tx' rx' h' k',
          check_words-rejects s c there (cn_fifo_rel ++ tx) (cn_fifo_rel ++ run_on rx)
              (cn_fifo_rel ++ tx') tx (run_on rx) ((cn_fifo_rel ++ rx') ∷ [])
              (base_name-path tx h (omega (arith, l)))
              (base_name-path (run_on rx) run_on-All
                (omega (arith, m, length-append rx (codes "\nREGISTER")))),
        )
        refl

  both-IsText : IsText (both tx rx tx' rx')
  both-IsText =
      All-append (λ c. c ≢ 0) (reg_line tx (run_on rx))
        (b' ' ∷ ((cn_fifo_rel ++ tx') ++ b' ' ∷ (cn_fifo_rel ++ rx')))
        (reg_line-IsText tx (run_on rx) h run_on-All)
        (
          omega arith,
          All-append (λ c. c ≢ 0) (cn_fifo_rel ++ tx') (b' ' ∷ (cn_fifo_rel ++ rx'))
              (path-IsText tx' h') (omega arith, path-IsText rx' k'),
        )

-- Where a read gives the commands of two clients, whose paths are names of fewer than 200 bytes behind
-- the client's prefix, and the server has a clear buffer and room, it turns both away: the number of
-- its clients, its answers and its watched descriptors are as before, and its buffer is clear again.
pub two_commands-lost :
    (sys : System) (s : Server) (c : Client) (tx rx tx' rx' : Bytes)
    → get_elem? s.clients s.client_max ≡ some c
    → s.request ≡ replicate buf_sz 0
    → All IsNameChar tx
    → All IsNameChar rx
    → All IsNameChar tx'
    → All IsNameChar rx'
    → length tx < 200
    → length rx < 200
    → length tx' < 200
    → length rx' < 200
    → (t : Server) × (register_round sys
          (reg_command (cn_fifo_rel ++ tx) (cn_fifo_rel ++ rx)
            ++ reg_command (cn_fifo_rel ++ tx') (cn_fifo_rel ++ rx'))
          s
        ≡ ok t)
      × (t.client_max ≡ s.client_max)
      × (t.responses ≡ s.responses)
      × (t.watched ≡ s.watched)
      × (t.request ≡ replicate buf_sz 0)
two_commands-lost sys s c tx rx tx' rx' there clear h k h' k' l m l' m' =
    let line = both tx rx tx' rx' in
    let a = register_line-rejects sys s c there tx rx tx' rx' h k h' k' l m l' m' in
    let t = both-IsText sys s c there tx rx tx' rx' h k h' k' l m l' m' in
    let n : length line + 1 < buf_sz = omega (arith, both-length tx rx tx' rx', l, m, l', m') in
    (
      turned_away s c there tx rx,
      ap (λ (got : Bytes). register_round sys got s) (both-commands tx rx tx' rx')
          ∙ register_round-line sys line s t n clear
          ∙ rw a refl,
      refl,
      refl,
      refl,
      refl,
    )
