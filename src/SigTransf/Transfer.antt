-- ===== src/SigTransf/Transfer.antt =====
-- What arrives in the transfer by signals, in every interleaving of the two processes.
use Prim.Native.Nat.{bit_and}
use mathlib.Core.Path.{subst}
use sem.Common.{
  ℕ, ◌/◌, ◌%◌, ◌<◌, ◌≡◌, ◌≢◌, refl, true, false, not, [], ◌∷◌, ◌++◌, append_assoc, append-nil,
  arith, ap, sym, ◌∙◌, Bytes, All, ◌==◌, Bool-cases, ◌⊎◌, inl, inr,
}
use sem.SigTransf.Main.{
  Phase, opening, reading, sending, waiting, ended, Place, head, suspended, gone, World, Step,
  open_fails, read_fails, opens, reads, sends, wakes, alarms, heads, one, zeroes, exits, Reach,
  here, later, child_read, child_send, child_wake, parent_head, parent_usr1, parent_usr2, childexit,
}
use sem.SigTransf.Story.{View, view, Story}
use sem.SigTransf.Invariant.{Inv, Reach-Inv}

Story-IsPrefix :
    (file : Bytes) (p : Phase) (x : View)
    → Story file p x
    → (rest : Bytes) × (x.saved ++ rest ≡ file)
Story-IsPrefix file opening x (q, (k, t, h)) = (x.src, h)
Story-IsPrefix file reading x (q, (k, t, h)) = (x.src, h)
Story-IsPrefix file ended x (q, (k, t, h), a, r) = (x.src, h)
Story-IsPrefix file (sending i c) x (m, l, q, (k, t, h)) = (c ∷ x.src, h)
Story-IsPrefix file (waiting i c) x (m, l, inl (a, u1, u2, (k, t, h))) = (c ∷ x.src, h)
Story-IsPrefix file (waiting i c) x (m, l, inr (a, u1, u2, n)) = elim (Bool-cases (i / 2 == 0)) [
  | inl last ↦ (x.src, (rw last at n).2)
  | inr more ↦ (c ∷ x.src, (rw more at n).2)
]

-- Neither an alarm nor a failed open or read has ended the child.
abbrev pub Calm : {file : Bytes} {w : World} → Reach file w → Type 0
Calm here = Unit
Calm (later r (open_fails a e)) = ⊥
Calm (later r (read_fails a e)) = ⊥
Calm (later r (alarms a e)) = ⊥
Calm (later r _) = Calm r

child_read-ended :
    (w : World) → w.alive ≡ true → (child_read w).alive ≡ false → (child_read w).phase ≡ ended
unfolding child_read
child_read-ended w a d = go w.src refl
  where
    go : (l : Bytes) → w.src ≡ l → (child_read w).phase ≡ ended
    go [] s = rw (s, child_read)
    go (c ∷ r) s = let d' : w.alive ≡ false = rw (s, child_read) at d in absurd (cc)

child_send-alive : (i c : ℕ) (w : World) → (child_send i c w).alive ≡ w.alive
unfolding child_send
child_send-alive i c w = ground arith

child_wake-alive : (i c : ℕ) (w : World) → (child_wake i c w).alive ≡ w.alive
unfolding child_wake
child_wake-alive i c w = ground arith

parent_head-alive : (w : World) → (parent_head w).alive ≡ w.alive
unfolding parent_head
parent_head-alive w = ground arith

parent_head-phase : (w : World) → (parent_head w).phase ≡ w.phase
unfolding parent_head
parent_head-phase w = ground arith

-- One of these has.
abbrev pub Broken : {file : Bytes} {w : World} → Reach file w → Type 0
Broken here = ⊥
Broken (later r (open_fails a e)) = Unit
Broken (later r (read_fails a e)) = Unit
Broken (later r (alarms a e)) = Unit
Broken (later r _) = Broken r

Calm-or-Broken : {file : Bytes} {w : World} (r : Reach file w) → Calm r ⊎ Broken r
Calm-or-Broken here = inl tt
Calm-or-Broken (later r (open_fails a e)) = inr tt
Calm-or-Broken (later r (read_fails a e)) = inr tt
Calm-or-Broken (later r (alarms a e)) = inr tt
Calm-or-Broken (later r (opens a e)) = Calm-or-Broken r
Calm-or-Broken (later r (reads a e)) = Calm-or-Broken r
Calm-or-Broken (later r (sends a e)) = Calm-or-Broken r
Calm-or-Broken (later r (wakes a e s)) = Calm-or-Broken r
Calm-or-Broken (later r (heads e)) = Calm-or-Broken r
Calm-or-Broken (later r (one e s)) = Calm-or-Broken r
Calm-or-Broken (later r (zeroes e s)) = Calm-or-Broken r
Calm-or-Broken (later r (exits e s)) = Calm-or-Broken r

-- Without them, a child that has ended has read the whole file.
Calm-ended :
    {file : Bytes} {w : World} (r : Reach file w) → Calm r → w.alive ≡ false → w.phase ≡ ended
unfolding parent_usr1 parent_usr2 childexit
Calm-ended here c d = absurd (cc)
Calm-ended (later r (open_fails a e)) c d = absurd c
Calm-ended (later r (alarms a e)) c d = absurd c
Calm-ended (later r (read_fails a e)) c d = absurd c
Calm-ended (later r (opens a e)) c d = absurd (cc)
Calm-ended (later r (reads a e)) c d = child_read-ended _ a d
Calm-ended (later r (sends {i = i} {c = k} a e)) c d = absurd (cc (child_send-alive i k _))
Calm-ended (later r (wakes {i = i} {c = k} a e s)) c d = absurd (cc (child_wake-alive i k _))
Calm-ended (later r (heads e)) c d =
    parent_head-phase _ ∙ Calm-ended r c (sym (parent_head-alive _) ∙ d)
Calm-ended (later r (one e s)) c d = Calm-ended r c d
Calm-ended (later r (zeroes e s)) c d = Calm-ended r c d
Calm-ended (later r (exits e s)) c d = Calm-ended r c d

pub Place-cases : (p : Place) → (p ≡ head) ⊎ (p ≡ suspended) ⊎ (p ≡ gone)
Place-cases head = inl refl
Place-cases suspended = inr (inl refl)
Place-cases gone = inr (inr refl)

-- A child that lives makes a step itself, or has sent a signal that the parent can take.
alive-Step :
    (file : Bytes) {w : World} (p : Phase)
    → w.alive ≡ true
    → w.place ≡ suspended
    → w.phase ≡ p
    → Story file p (view w)
    → (u : World) × Step w u
alive-Step file opening a s e h = (_, opens a e)
alive-Step file reading a s e h = (_, reads a e)
alive-Step file (sending i c) a s e h = (_, sends a e)
alive-Step file (waiting i c) a s e (m, l, inr (k, u1, u2, h)) = (_, wakes a e k)
alive-Step file (waiting i c) a s e (m, l, inl (k, u1, u2, h)) =
    elim (Bool-cases (bit_and i c == 0)) [
      | inl z ↦ (_, zeroes s (u2 ∙ z))
      | inr z ↦ (_, one s (u1 ∙ ap not z))
    ]
alive-Step file ended a s e (q, h, d, r) = absurd (cc)

-- As long as the parent is not gone, some step is left.
live : {file : Bytes} {w : World} → Inv file w → w.place ≢ gone → (u : World) × Step w u
live {file} {w} v g = elim (Place-cases w.place) [
  | inl h ↦ (_, heads h)
  | inr (inr e) ↦ absurd (g e)
  | inr (inl s) ↦ elim (Bool-cases w.alive) [
    | inl a ↦ alive-Step file w.phase a s refl v.story
    | inr d ↦ (_, exits s (ground (arith, v.dying d)))
  ]
]

ended-eq :
    {file : Bytes} {w : World} → Inv file w → w.place ≡ gone → w.phase ≡ ended → w.written ≡ file
ended-eq {file} {w} v away over =
    let (q, (k, t, h), d, r) = subst (λ p. Story file p (view w)) over v.story in
    let busy : (w.counter == 0) ≡ false = ground (arith, v.counting (λ e. cc)) in
    let h' : w.written ++ w.src ≡ file = rw busy at h in
    sym (append-nil w.written) ∙ subst (λ l. w.written ++ l ≡ file) r h'

module _ {file : Bytes} (small : All (λ b. b < 256) file) {w : World} (r : Reach file w) where
  -- In every interleaving of the two processes, whatever alarms come in between, the bytes that the
  -- parent has written are the front of the file.
  pub written-IsPrefix : (rest : Bytes) × (w.written ++ rest ≡ file)
  written-IsPrefix =
      let (rest, h) = Story-IsPrefix file w.phase (view w) (Reach-Inv small r).story in
      elim (Bool-cases (w.counter == 0)) [
        | inl z ↦ (
          w.out_char % 256 ∷ rest,
          sym (append_assoc w.written (w.out_char % 256 ∷ []) rest) ∙ (rw z at h),
        )
        | inr z ↦ (rest, rw z at h)
      ]

  -- The conversation never stops halfway: a state in which no step is left is one in which the
  -- parent is gone, and the parent has by then written exactly the file, unless an alarm, a failed
  -- open or a failed read has ended the child. The parent's own file opens and takes each byte.
  pub conversation_completes :
      ((u : World) → ¬ Step w u) → (w.place ≡ gone) × (Broken r ⊎ (w.written ≡ file))
  conversation_completes final =
      let v : Inv file w = Reach-Inv small r in
      let away : w.place ≡ gone = elim (Place-cases w.place) [
        | inl h ↦ absurd (final (parent_head w) (heads h))
        | inr (inr e) ↦ e
        | inr (inl s) ↦ let (u, st) = live v (λ e. cc) in absurd (final u st)
      ] in
      (
        away,
        elim (Calm-or-Broken r) [
          | inl c ↦ inr (ended-eq v away (Calm-ended r c (v.dead (inr away))))
          | inr b ↦ inl b
        ],
      )
