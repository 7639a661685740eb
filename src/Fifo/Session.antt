-- ===== src/Fifo/Session.antt =====
-- A whole session of task3/FIFO: the handshake, and the transfer of the file that the client asked
-- for.
use sem.Common.{
  ℕ, zero, suc, ◌%◌, ◌^◌, ◌≤◌, ◌<◌, ◌≡◌, ◌≢◌, refl, false, ◌⊎◌, inl, inr, Bool-cases, List-cases,
  [], ◌∷◌, ◌++◌, Bytes, IsText, drop, length, overlay, Run, ok, ◌>>=◌, arith, Option, none, some,
  same, same_refl, if◌then◌else◌,
}
use sem.Fifo.Message.{SimpleMessage, encode, decode, make_fifo_name}
use sem.Fifo.Server.{server_start}
use sem.Fifo.Client.{request, client_start}
use sem.Fifo.Handshake.{
  server_calls, client_calls, sent, answered, request-ok, server_start-ok, client_start-ok,
}
use sem.Fifo.System.{World, Step, send, receive, begin, Reach, here, later}
use sem.Fifo.System.Invariant.{Reach-Inv, client_round-ok, measure, Step-measure}
use sem.Fifo.System.Transfer.{transfer_completes}

-- Both programs up to their loops, where the calls succeed: the server sends the file of the path that
-- it has opened, from the buffer of the request, and the client receives into the buffer of the answer.
-- The loops share a pipe if the server has opened the fifo that the client has made and reads from;
-- `none` is a server that writes into another one.
unfoldable pub session_start :
    (Bytes → Bytes) → ℕ → Bytes → SimpleMessage → SimpleMessage → Run (Option World)
session_start files pid path stale stale' = do
  req ← request pid path stale
  started ← server_start (server_calls (encode req)) stale'
  asked ← client_start pid path (client_calls started.answer) stale
  let joined = begin (files started.path) (decode (encode req)).sm_data asked.msg.sm_data
  ok (if same started.fifo_name asked.fifo_name then some joined else none)

session_start-ok :
    (files : Bytes → Bytes) (pid : ℕ) (path : Bytes) (stale stale' : SimpleMessage)
    → pid < 2 ^ 32
    → IsText path
    → length path < length stale.sm_data
    → 5 < length stale'.sm_data
    → (server_data client_data : Bytes) × (session_start files pid path stale stale'
        ≡ ok (some (begin (files path) server_data client_data)))
      × (server_data ≢ [])
unfolding session_start
session_start-ok files pid path stale stale' small text fits fits' = (
  (sent pid path stale stale').sm_data,
  (decode (
      overlay 0 (encode (answered pid path stale stale'))
        (encode (sent pid path stale stale')))).sm_data,
  rw
      (
        request-ok pid path stale stale' fits,
        server_start-ok pid path stale stale' small text fits',
        client_start-ok pid path stale stale' fits,
        same_refl (make_fifo_name pid 100),
      )
      refl,
  filled path,
)
  where
    filled : (p : Bytes) → p ++ 0 ∷ drop (suc (length path)) stale.sm_data ≢ []
    filled [] = λ e. cc
    filled (c ∷ p) = λ e. cc

idle_step :
    (w : World)
    → w.server.running ≡ false
    → (w.client.running ≡ false) ⊎ (w.pipe ≡ [])
    → (v : World) → ¬ Step w v
idle_step w stop idle v (send run) = cc
idle_step w stop (inl left) v (receive run ne e) = cc
idle_step w stop (inr dry) v (receive run ne e) = ne dry

-- A run can go on until no step is left.
run_out :
    (n : ℕ) (file sd cd : Bytes) {w : World}
    → sd ≢ []
    → Reach (begin file sd cd) w
    → measure w ≤ n
    → (u : World) × Reach (begin file sd cd) u × ((v : World) → ¬ Step u v)
run_out zero file sd cd {w} h r m =
    (w, r, λ v s. absurd (omega (arith, Step-measure (Reach-Inv file sd cd h r) s, m)))
run_out (suc n) file sd cd {w} h r m = elim (Bool-cases w.server.running) [
  | inl run ↦ run_out n file sd cd h (later r (send run)) (shorter (send run))
  | inr stop ↦ elim (Bool-cases w.client.running) [
    | inr left ↦ (w, r, idle_step w stop (inl left))
    | inl going ↦ elim (List-cases w.pipe) [
      | inl dry ↦ (w, r, idle_step w stop (inr dry))
      | inr wet ↦
          (let (c, e) = client_round-ok w.client (Reach-Inv file sd cd h r).framed wet in
            run_out n file sd cd h (later r (receive going wet e)) (shorter (receive going wet e)))
    ]
  ]
]
  where
    shorter : {u : World} → Step w u → measure u ≤ n
    shorter s = omega (arith, Step-measure (Reach-Inv file sd cd h r) s, m)

-- A client that asks for a path without NUL, shorter than the array of the message, of a file whose
-- length is no multiple of 127: where every call succeeds, both programs come to their loops, the
-- server with the fifo open that the client reads from, and a run of the loops ends the client with
-- exactly this file written.
pub session_copies :
    (files : Bytes → Bytes) (pid : ℕ) (path : Bytes) (stale stale' : SimpleMessage)
    → pid < 2 ^ 32
    → IsText path
    → length path < length stale.sm_data
    → 5 < length stale'.sm_data
    → length (files path) % 127 ≢ 0
    → (start : World) × (w : World) × (session_start files pid path stale stale' ≡ ok (some start))
      × Reach start w
      × (w.client.running ≡ false)
      × (w.client.out ≡ files path)
session_copies files pid path stale stale' small text fits fits' odd =
    let (sd, cd, e, filled) = session_start-ok files pid path stale stale' small text fits fits' in
    let start = begin (files path) sd cd in
    let (w, r, final) =
      run_out (measure start) (files path) sd cd {w = start} filled here (omega arith) in
    let (stop, same) = transfer_completes (files path) sd cd filled r odd final in
    (start, w, e, r, stop, same)
