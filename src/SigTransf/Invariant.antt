-- ===== src/SigTransf/Invariant.antt =====
-- The invariant of the signal transfer, kept by every step, and what it says of the output.
use mathlib.Core.Path.{subst}
use sem.Common.{
  ℕ, ◌<◌, ◌≡◌, ◌≢◌, refl, true, false, [], ◌∷◌, ◌++◌, arith, sym, ◌∙◌, Bytes, All, ◌⊎◌, inl, inr,
}
use sem.SigTransf.Main.{
  Phase, opening, reading, sending, waiting, ended, head, suspended, gone, World, begin, Step,
  open_fails, read_fails, opens, reads, sends, wakes, alarms, heads, one, zeroes, exits, Reach,
  here, later, child_exit, child_read, child_send, child_wake, parent_head, parent_usr1,
  parent_usr2, childexit,
}
use sem.SigTransf.Story.{
  view, IsQuiet, Story, Story-exit, view-parent_head, usr1-Story, usr2-Story, child_wake-Story,
  child_send-Story,
}

pub record Inv (file : Bytes) (w : World) : Type 0 where
  pub bytes : All (λ b. b < 256) w.src
  pub counting : w.place ≢ head → w.counter ≢ 0
  pub dying : w.alive ≡ false → (w.chld ≡ true) ⊎ (w.place ≡ gone)
  pub dead : (w.chld ≡ true) ⊎ (w.place ≡ gone) → w.alive ≡ false
  pub story : Story file w.phase (view w)

begin-Inv : (file : Bytes) → All (λ b. b < 256) file → Inv file (begin file)
begin-Inv file h = record {
  bytes = h;
  counting = λ e. absurd (e refl);
  dying = λ e. cc;
  dead = λ d. ground arith;
  story = ((refl, refl, refl), (refl, refl, refl));
}

module _ {file : Bytes} {w : World} (v : Inv file w) where
  at_phase : {p : Phase} → w.phase ≡ p → Story file p (view w)
  at_phase e = subst (λ p. Story file p (view w)) e v.story

  child_exit-Inv : Inv file (child_exit w)
  unfolding child_exit
  child_exit-Inv = record {
    bytes = v.bytes;
    counting = v.counting;
    dying = λ e. inl refl;
    dead = λ d. refl;
    story = Story-exit file w.phase (view w) v.story;
  }

  opens-Inv : w.phase ≡ opening → Inv file (record w { phase = reading })
  opens-Inv e = record {
    bytes = v.bytes;
    counting = v.counting;
    dying = v.dying;
    dead = v.dead;
    story = at_phase e;
  }

  not_head : w.place ≡ suspended → w.place ≢ head
  not_head e h = cc

  -- A parent that is not gone has the child's end pending.
  mourning : w.place ≢ gone → w.alive ≡ false → w.chld ≡ true
  mourning h a = ground (arith, v.dying a)

  child_send-Inv : {i c : ℕ} → w.phase ≡ sending i c → Inv file (child_send i c w)
  unfolding child_send
  child_send-Inv {i} {c} e = record {
    bytes = ground (arith, v.bytes);
    counting = ground (arith, v.counting);
    dying = ground (arith, v.dying);
    dead = ground (arith, v.dead);
    story = child_send-Story file w i c (at_phase e);
  }

  child_wake-Inv : {i c : ℕ} → w.phase ≡ waiting i c → w.ack ≡ true → Inv file (child_wake i c w)
  unfolding child_wake
  child_wake-Inv {i} {c} e a = record {
    bytes = ground (arith, v.bytes);
    counting = ground (arith, v.counting);
    dying = ground (arith, v.dying);
    dead = ground (arith, v.dead);
    story = child_wake-Story file w i c (at_phase e) a;
  }

  phase-parent_head : (parent_head w).phase ≡ w.phase
  unfolding parent_head
  phase-parent_head = ground arith

  parent_head-Story : Story file (parent_head w).phase (view (parent_head w))
  parent_head-Story = rw (phase-parent_head, view-parent_head w) v.story

  same_chld : (parent_head w).chld ≡ w.chld
  unfolding parent_head
  same_chld = ground arith

  same_alive : (parent_head w).alive ≡ w.alive
  unfolding parent_head
  same_alive = ground arith

  parent_head-Inv : w.place ≡ head → Inv file (parent_head w)
  unfolding parent_head
  parent_head-Inv e = record {
    bytes = ground (arith, v.bytes);
    counting = λ h. ground arith;
    dying = λ a. inl (same_chld ∙ mourning (λ g. cc) (sym same_alive ∙ a));
    dead = λ d. ground (arith, v.dead);
    story = parent_head-Story;
  }

  parent_usr1-Inv : w.place ≡ suspended → w.usr1 ≡ true → Inv file (parent_usr1 w)
  unfolding parent_usr1
  parent_usr1-Inv e s = record {
    bytes = v.bytes;
    counting = λ h. absurd (h refl);
    dying = λ a. inl (mourning (λ g. cc) a);
    dead = λ d. v.dead (ground arith);
    story = usr1-Story file w w.phase v.story (v.counting (not_head e)) s;
  }

  parent_usr2-Inv : w.place ≡ suspended → w.usr2 ≡ true → Inv file (parent_usr2 w)
  unfolding parent_usr2
  parent_usr2-Inv e s = record {
    bytes = v.bytes;
    counting = λ h. absurd (h refl);
    dying = λ a. inl (mourning (λ g. cc) a);
    dead = λ d. v.dead (ground arith);
    story = usr2-Story file w w.phase v.story (v.counting (not_head e)) s;
  }

  childexit-Inv : w.place ≡ suspended → w.chld ≡ true → Inv file (childexit w)
  unfolding childexit
  childexit-Inv e s = record {
    bytes = v.bytes;
    counting = λ h. v.counting (not_head e);
    dying = λ h. inr refl;
    dead = λ d. v.dead (inl s);
    story = v.story;
  }

  pieces :
      w.phase ≡ reading
      → IsQuiet (view w)
        × ((view w).count ≡ 128)
        × ((view w).sum ≡ 0)
        × ((view w).saved ++ w.src ≡ file)
  pieces e = let (q, h) = at_phase e in (q, h.0, h.1, h.2)

  read_byte :
      (c : ℕ) (r : Bytes)
      → w.phase ≡ reading
      → w.src ≡ c ∷ r
      → Inv file (record w { src = r; phase = sending 128 c; armed = true })
  read_byte c r e s =
      let small : All (λ b. b < 256) (c ∷ r) = subst (All (λ b. b < 256)) s v.bytes in
      let (q, k, t, h) = pieces e in
      record {
        bytes = small.1;
        counting = v.counting;
        dying = v.dying;
        dead = v.dead;
        story = (
          inl refl,
          small.0,
          q,
          (k, omega (arith, t, small.0), subst (λ l. (view w).saved ++ l ≡ file) s h),
        );
      }

  read_end : w.phase ≡ reading → w.src ≡ [] → Inv file (child_exit (record w { phase = ended }))
  unfolding child_exit
  read_end e s =
      let (q, h) = at_phase e in
      record {
        bytes = v.bytes;
        counting = v.counting;
        dying = λ h. inl refl;
        dead = λ d. refl;
        story = (q, h, refl, s);
      }

  child_read-Inv : w.phase ≡ reading → Inv file (child_read w)
  unfolding child_read
  child_read-Inv e = go w.src refl
    where
      go : (l : Bytes) → w.src ≡ l → Inv file (child_read w)
      go [] s = rw (s, child_read) (read_end e s)
      go (c ∷ r) s = rw (s, child_read) (read_byte c r e s)

Step-Inv : {file : Bytes} {w u : World} → Step w u → Inv file w → Inv file u
Step-Inv (open_fails a e) v = child_exit-Inv v
Step-Inv (read_fails a e) v = child_exit-Inv v
Step-Inv (opens a e) v = opens-Inv v e
Step-Inv (reads a e) v = child_read-Inv v e
Step-Inv (sends a e) v = child_send-Inv v e
Step-Inv (wakes a e k) v = child_wake-Inv v e k
Step-Inv (alarms a e) v = child_exit-Inv v
Step-Inv (heads e) v = parent_head-Inv v e
Step-Inv (one e s) v = parent_usr1-Inv v e s
Step-Inv (zeroes e s) v = parent_usr2-Inv v e s
Step-Inv (exits e s) v = childexit-Inv v e s

pub Reach-Inv : {file : Bytes} {w : World} → All (λ b. b < 256) file → Reach file w → Inv file w
Reach-Inv {file} h here = begin-Inv file h
Reach-Inv h (later r s) = Step-Inv s (Reach-Inv h r)
