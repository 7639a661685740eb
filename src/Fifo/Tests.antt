-- ===== src/Fifo/Tests.antt =====
-- Runs of the transfer and of the handshake on small inputs.
use sem.Common.{
  some, ◌+◌, ◌*◌, ◌≤◌, ◌%◌, ◌≡◌, ◌≢◌, refl, true, false, [], arith, Bytes, replicate, cons-ne-nil,
  digits, codes, length, ok, ◌++◌,
}
use sem.Fifo.Message.{SimpleMessage, make_fifo_name}
use sem.Fifo.Client.{client_round}
use sem.Fifo.System.{World, Step, send, receive, begin, Reach, here, later, serve}
use sem.Fifo.System.Transfer.{
  transfer_exact, transfer_hangs, transfer_completes, transfer_terminates, steps,
}
use sem.Fifo.Session.{session_start, session_copies}

abbrev zeros : Bytes
zeros = replicate 128 0

abbrev short_file : Bytes
short_file = codes "hi"

abbrev full_file : Bytes
full_file = replicate 127 5

record RunOf (file : Bytes) : Type 0 where
  last : World
  reach : Reach (begin file zeros zeros) last

zeros-ne-nil : zeros ≢ []
zeros-ne-nil e = cc

-- The server sends its one message, and the client receives it.
abbrev short_run : RunOf short_file
unfolding serve client_round
short_run = record {
  last = _;
  reach = later (later here (send refl)) (receive refl (cons-ne-nil _ _) refl);
}

-- A full message, its receipt, and the server's last round.
abbrev full_run : RunOf full_file
unfolding serve client_round
full_run = record {
  last = _;
  reach = later (later (later here (send refl)) (receive refl (cons-ne-nil _ _) refl)) (send refl);
}

stuck_dry : (w : World) → w.server.running ≡ false → w.pipe ≡ [] → (u : World) → ¬ Step w u
stuck_dry w stop dry u (send run) = cc
stuck_dry w stop dry u (receive run ne e) = ne dry

transfer_exact_example : (short_run.last.client.out ≡ short_file) × (length short_file % 127 ≢ 0)
unfolding serve client_round
transfer_exact_example = transfer_exact short_file zeros zeros zeros-ne-nil short_run.reach refl

transfer_hangs_example :
    (full_run.last.client.running ≡ true) × (full_run.last.client.out ≡ full_file)
unfolding serve client_round
transfer_hangs_example =
    transfer_hangs full_file zeros zeros zeros-ne-nil full_run.reach refl
      (stuck_dry full_run.last refl refl)

transfer_completes_example :
    (short_run.last.client.running ≡ false) × (short_run.last.client.out ≡ short_file)
unfolding serve client_round
transfer_completes_example =
    transfer_completes short_file zeros zeros zeros-ne-nil short_run.reach (λ e. cc)
      (stuck_dry short_run.last refl refl)

transfer_terminates_example : steps short_run.reach ≤ 3 * length short_file + 1
unfolding serve client_round
transfer_terminates_example =
    transfer_terminates short_file zeros zeros zeros-ne-nil short_run.reach

abbrev blank : SimpleMessage
blank = record { sm_clientpid = 0; sm_data = zeros }

session_copies_example :
    (start : World) × (w : World) × (session_start
        (λ path. path ++ codes "!")
        4711
        (codes "a.txt")
        blank
        blank
      ≡ ok (some start))
    × Reach start w
    × (w.client.running ≡ false)
    × (w.client.out ≡ codes "a.txt!")
session_copies_example =
    session_copies (λ path. path ++ codes "!") 4711 (codes "a.txt") blank blank (omega arith)
      (omega arith) (omega arith) (omega arith) (omega arith)

fifo_name_runs : make_fifo_name 4711 100 ≡ codes "../channels/fifo4711"
unfolding make_fifo_name digits
fifo_name_runs = refl
