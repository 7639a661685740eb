-- ===== src/Fifo/System/Transfer.antt =====
-- What reaches the destination, in every interleaving of the two loops.
use sem.Common.{
  ℕ, suc, ◌+◌, ◌*◌, ◌%◌, ◌≤◌, ◌≡◌, ◌≢◌, true, false, [], ◌++◌, arith, Bytes, length, Bool-cases,
  inl, inr, List-cases,
}
use sem.Fifo.System.{World, serve, Step, send, receive, begin, Reach, here, later}
use sem.Fifo.System.Invariant.{
  Inv, Reach-Inv, stopped-eq, dry-eq, client_round-ok, measure, Step-measure,
}

-- The number of steps that led to a state.
pub steps : {start w : World} → Reach start w → ℕ
steps here = 0
steps (later r s) = suc (steps r)

-- Where no step is left and the client still runs, nothing is in flight and the server has stopped.
final-dry :
    {file : Bytes} {w : World}
    → Inv file w
    → w.client.running ≡ true
    → ((u : World) → ¬ Step w u)
    → (w.server.running ≡ false) × (w.pipe ≡ [])
final-dry {w = w} v run final = (
  elim (Bool-cases w.server.running) [
    | inl sending ↦ absurd (final (serve w) (send sending))
    | inr stop ↦ stop
  ],
  elim (List-cases w.pipe) [
    | inl dry ↦ dry
    | inr wet ↦
        let (c, e) = client_round-ok w.client v.framed wet in absurd (final _ (receive run wet e))
  ],
)

steps-measure :
    (file sd cd : Bytes) {w : World}
    → sd ≢ []
    → (r : Reach (begin file sd cd) w) → steps r + measure w ≤ 3 * length file + 1
unfolding steps
steps-measure file sd cd h here = unfold measure in omega arith
steps-measure file sd cd h (later r s) =
    omega (arith, steps-measure file sd cd h r, Step-measure (Reach-Inv file sd cd h r) s)

module _ (file server_data client_data : Bytes) {w : World} where
  -- In every interleaving of the server's and the client's loop, from buffers of any contents, a
  -- client that has left its loop has written exactly the file, and the length of the file is no
  -- multiple of 127.
  pub transfer_exact :
      server_data ≢ []
      → Reach (begin file server_data client_data) w
      → w.client.running ≡ false
      → (w.client.out ≡ file) × (length file % 127 ≢ 0)
  transfer_exact h r stop =
      let v : Inv file w = Reach-Inv file server_data client_data h r in
      let e : w.client.out ≡ file = stopped-eq v stop in (e, rw (← e) ((v.ended stop).2))

  -- While the client's loop runs, what it has written is the front of the file: the rest of the
  -- file is what the pipe carries followed by what the server has not read.
  pub transfer-IsPrefix :
      server_data ≢ []
      → Reach (begin file server_data client_data) w
      → (rest : Bytes) × (w.client.out ++ rest ≡ file)
  transfer-IsPrefix h r =
      let v : Inv file w = Reach-Inv file server_data client_data h r in
      (v.payload ++ w.src, v.kept)

  -- If the length of the file is a multiple of 127, a run that can go no further has written the
  -- whole file and has left the client in its loop, waiting for a message that never comes.
  pub transfer_hangs :
      server_data ≢ []
      → Reach (begin file server_data client_data) w
      → length file % 127 ≡ 0
      → ((u : World) → ¬ Step w u)
      → (w.client.running ≡ true) × (w.client.out ≡ file)
  transfer_hangs h r m final =
      let v : Inv file w = Reach-Inv file server_data client_data h r in
      let run : w.client.running ≡ true = elim (Bool-cases w.client.running) [
        | inl run ↦ run
        | inr stop ↦ absurd ((transfer_exact h r stop).1 m)
      ] in
      let (stop, dry) = final-dry v run final in (run, dry-eq v stop dry)

  -- If the length of the file is no multiple of 127, some step is left as long as the client's loop
  -- runs; so a run that can go no further has ended the client's loop, with exactly the file written.
  pub transfer_completes :
      server_data ≢ []
      → Reach (begin file server_data client_data) w
      → length file % 127 ≢ 0
      → ((u : World) → ¬ Step w u)
      → (w.client.running ≡ false) × (w.client.out ≡ file)
  transfer_completes h r m final =
      let v : Inv file w = Reach-Inv file server_data client_data h r in
      let stop : w.client.running ≡ false = elim (Bool-cases w.client.running) [
        | inl run ↦
            let (s, d) = final-dry v run final in absurd (m (rw (dry-eq v s d) at (v.whole run)))
        | inr stop ↦ stop
      ] in
      (stop, stopped-eq v stop)

  -- No run of the two loops has more than three steps for each byte of the file and one more.
  pub transfer_terminates :
      server_data ≢ []
      → (r : Reach (begin file server_data client_data) w) → steps r ≤ 3 * length file + 1
  transfer_terminates h r = omega (arith, steps-measure file server_data client_data h r)
