-- ===== src/Fifo/System/Invariant.antt =====
-- The invariant of the two loops side by side, and a measure that every step brings down.
use Prim.Native.Nat.{min}
use sem.Common.{
  ℕ, suc, ◌+◌, ◌-◌, ◌*◌, ◌%◌, ◌≤◌, ◌<◌, ◌≡◌, ◌≢◌, refl, sym, ap, ◌∙◌, Bool, true, false, not, some,
  [], ◌∷◌, ◌++◌, append-nil, append_assoc, arith, Bytes, take, drop, length, length-append,
  length-take, length-drop, take-append-drop, drop-append, drop_all, if◌then◌else◌, ok,
  ok-injective, ◌==◌, Bool-cases, inl, inr,
}
use sem.Fifo.Server.{server_round}
use sem.Fifo.Client.{Client, client_round}
use sem.Fifo.System.{World, serve, Step, send, receive, begin, Reach, here, later}
use sem.Fifo.System.Stream.{Framed, none_left, full, last, Framed-full, Framed-last, Framed-close}
use sem.Fifo.System.Rounds.{message, server_round_lem, client_round-full, client_round-last}

-- `payload` is what the messages in flight carry.
pub record Inv (file : Bytes) (w : World) : Type 0 where
  pub filled : w.server.sm_data ≢ []
  pub payload : Bytes
  pub framed : Framed (not w.server.running) w.pipe payload
  pub kept : w.client.out ++ (payload ++ w.src) ≡ file
  pub drained : w.server.running ≡ false → w.src ≡ []
  pub whole : w.client.running ≡ true → length w.client.out % 127 ≡ 0
  pub ended :
      w.client.running ≡ false
      → (w.server.running ≡ false) × (payload ≡ []) × (length w.client.out % 127 ≢ 0)

begin-Inv : (file sd cd : Bytes) → sd ≢ [] → Inv file (begin file sd cd)
begin-Inv file sd cd h = record {
  filled = h;
  payload = [];
  framed = none_left;
  kept = refl;
  drained = λ e. cc;
  whole = λ e. refl;
  ended = λ e. cc;
}

-- The three ways in which a round of the server goes on with the stream.
Framed-message :
    {c : Bool} {pipe payload : Bytes} (b : Bytes)
    → c ≡ false
    → Framed c pipe payload
    → length b ≤ 127
    → Framed (not (length b == 127)) (pipe ++ message b) (payload ++ b)
Framed-message {c} {pipe} {payload} [] h f le =
    rw (append-nil pipe, append-nil payload) (Framed-close f)
Framed-message {c} {pipe} {payload} (x ∷ b) h f le = elim (Bool-cases (suc (length b) == 127)) [
  | inl e ↦
      let n : suc (length b) ≡ 127 = ground arith in
      let o : not (suc (length b) == 127) ≡ c = ground arith in
      rw (o, n) (Framed-full (x ∷ b) h f n)
  | inr e ↦
      let n : suc (length b) < 127 = ground arith in rw e (Framed-last (x ∷ b) h f (omega arith) n)
]

serve-Inv : {file : Bytes} {w : World} → Inv file w → w.server.running ≡ true → Inv file (serve w)
unfolding serve
serve-Inv {file} {w} v run = record {
  filled = round.2;
  payload = v.payload ++ take 127 w.src;
  framed = rw (round.0, round.1) (Framed-message (take 127 w.src) (rw run) v.framed short);
  kept = rw (append_assoc, take-append-drop 127 w.src) v.kept;
  drained = λ e. drop_all 127 w.src (ground (arith, round.1, length-take 127 w.src));
  whole = v.whole;
  ended = λ e. absurd (ground (arith, (v.ended e).0));
}
  where
    short : length (take 127 w.src) ≤ 127
    short = omega (arith, length-take 127 w.src)

    round :
        ((server_round (some (take 127 w.src)) w.server).1 ≡ message (take 127 w.src))
        × ((server_round (some (take 127 w.src)) w.server).0.running
            ≡ (length (take 127 w.src) == 127))
        × ((server_round (some (take 127 w.src)) w.server).0.sm_data ≢ [])
    round = server_round_lem (take 127 w.src) w.server short v.filled

-- What a successful round of the client does to the stream.
data Received (c : Bool) (pipe payload : Bytes) (old new : Client) : Type 0 where
  more :
      (b rest : Bytes)
      → length b ≡ 127
      → Framed c (drop 128 pipe) rest
      → payload ≡ b ++ rest
      → new.out ≡ old.out ++ b
      → new.running ≡ true
      → Received c pipe payload old new
  done :
      c ≡ true
      → drop 128 pipe ≡ []
      → 0 < length payload
      → length payload < 127
      → new.out ≡ old.out ++ payload
      → new.running ≡ false
      → Received c pipe payload old new

client_round-Received :
    {c : Bool} {pipe payload : Bytes} (old new : Client)
    → Framed c pipe payload
    → pipe ≢ []
    → client_round (some (take 128 pipe)) true old ≡ ok new
    → Received c pipe payload old new
client_round-Received old new none_left h e = absurd (h refl)
client_round-Received old new (full {pipe} {payload} b n f ep eq) h e =
    let (d, r) = client_round-full b pipe old n in
    let s : record { sm_data = d; out = old.out ++ b; running = true } ≡ new =
      ok-injective (sym r ∙ (rw ep at e)) in
    more b payload n (rw (ep, drop-append 127 b pipe n) f) eq (sym (ap (λ c. c.out) s))
      (sym (ap (λ c. c.running) s))
client_round-Received old new (last b o h k ep) ne e =
    let (d, r) = client_round-last b old h k in
    let s : record { sm_data = d; out = old.out ++ b; running = false } ≡ new =
      ok-injective (sym r ∙ (rw ep at e)) in
    done o (rw ep (drop_all 127 b (omega arith))) h k (sym (ap (λ c. c.out) s))
      (sym (ap (λ c. c.running) s))

receive-Inv :
    {file : Bytes} {w : World} (c : Client) (v : Inv file w)
    → w.client.running ≡ true
    → Received (not w.server.running) w.pipe v.payload w.client c
    → Inv file (record w { pipe = drop 128 w.pipe; client = c })
receive-Inv c v run (more b rest n f ep eo er) = record {
  filled = v.filled;
  payload = rest;
  framed = f;
  kept = rw (eo, append_assoc) (rw (ep, append_assoc) at v.kept);
  drained = v.drained;
  whole = λ e. omega (arith, v.whole run, ap length eo, length-append {0} _ b);
  ended = λ e. absurd (cc);
}
receive-Inv {file} {w} c v run (done cl ed h k eo er) = record {
  filled = v.filled;
  payload = [];
  framed = rw ed none_left;
  kept = rw (eo, append_assoc) v.kept;
  drained = v.drained;
  whole = λ e. absurd (cc);
  ended = λ e. (
    ground arith,
    refl,
    omega (arith, v.whole run, ap length eo, length-append {0} w.client.out v.payload),
  );
}

Step-Inv : {file : Bytes} {w u : World} → Step w u → Inv file w → Inv file u
Step-Inv (send run) v = serve-Inv v run
Step-Inv (receive {w} {c} run ne e) v =
    receive-Inv c v run (client_round-Received w.client c v.framed ne e)

-- Every state that the two loops reach, in any interleaving, keeps the invariant.
pub Reach-Inv : (file sd cd : Bytes) {w : World} → sd ≢ [] → Reach (begin file sd cd) w → Inv file w
Reach-Inv file sd cd h here = begin-Inv file sd cd h
Reach-Inv file sd cd h (later r s) = Step-Inv s (Reach-Inv file sd cd h r)

Framed-nil : {c : Bool} {pipe payload : Bytes} → Framed c pipe payload → pipe ≡ [] → payload ≡ []
Framed-nil none_left e = refl
Framed-nil (full b n f ep eq) e = absurd (cc)
Framed-nil (last b o h k ep) e = absurd (cc)

-- The client's round on a stream that is not empty succeeds.
pub client_round-ok :
    {c : Bool} {pipe payload : Bytes} (old : Client)
    → Framed c pipe payload
    → pipe ≢ []
    → (new : Client) × (client_round (some (take 128 pipe)) true old ≡ ok new)
client_round-ok old none_left h = absurd (h refl)
client_round-ok old (full {pipe} b n f ep eq) h =
    let (d, r) = client_round-full b pipe old n in
    (record { sm_data = d; out = old.out ++ b; running = true }, rw ep r)
client_round-ok old (last b o h k ep) ne =
    let (d, r) = client_round-last b old h k in
    (record { sm_data = d; out = old.out ++ b; running = false }, rw ep r)

nothing_left :
    {file : Bytes} (out payload src : Bytes)
    → payload ≡ []
    → src ≡ []
    → out ++ (payload ++ src) ≡ file
    → out ≡ file
nothing_left out payload src p q e = sym (append-nil out) ∙ (rw (p, q) at e)

-- A client that has stopped has written the file.
pub stopped-eq :
    {file : Bytes} {w : World} → Inv file w → w.client.running ≡ false → w.client.out ≡ file
stopped-eq {w} v stop = nothing_left _ _ w.src (v.ended stop).1 (v.drained (v.ended stop).0) v.kept

-- With the server stopped and nothing in flight the same holds.
pub dry-eq :
    {file : Bytes} {w : World}
    → Inv file w
    → w.server.running ≡ false
    → w.pipe ≡ []
    → w.client.out ≡ file
dry-eq {w} v stop dry = nothing_left _ _ w.src (Framed-nil v.framed dry) (v.drained stop) v.kept

-- The bytes to read, the bytes in flight and the server's last round: every step uses some up.
unfoldable pub measure : World → ℕ
measure w = 3 * length w.src + (if w.server.running then 1 else 0) + length w.pipe

length-pos : (b : Bytes) → b ≢ [] → 0 < length b
length-pos [] h = absurd (h refl)
length-pos (c ∷ b) h = omega arith

send-measure :
    (b pipe : Bytes) (n m : ℕ)
    → length b ≡ min 127 n
    → m ≡ n - 127
    → 3 * m + (if length b == 127 then 1 else 0) + length (pipe ++ message b)
      < 3 * n + 1 + length pipe
send-measure [] pipe n m h k = omega (arith, length-append {0} pipe [])
send-measure (c ∷ b) pipe n m h k = ground (arith, length-append {0} pipe (message (c ∷ b)))

serve-measure :
    (w : World) → w.server.running ≡ true → w.server.sm_data ≢ [] → measure (serve w) < measure w
unfolding measure serve
serve-measure w run filled =
    let short : length (take 127 w.src) ≤ 127 = omega (arith, length-take {0} 127 w.src) in
    let (sent, going, _) = server_round_lem (take 127 w.src) w.server short filled in
    rw (sent, going, run)
      (send-measure (take 127 w.src) w.pipe (length w.src) (length (drop 127 w.src))
        (length-take 127 w.src) (length-drop 127 w.src))

pub Step-measure : {file : Bytes} {w u : World} → Inv file w → Step w u → measure u < measure w
unfolding measure
Step-measure v (send {w} run) = serve-measure w run v.filled
Step-measure v (receive {w} {c} run ne e) =
    omega (arith, length-drop {0} 128 w.pipe, length-pos w.pipe ne)
