-- ===== src/SigTransf/Main.antt =====
-- task5/sig-transf/src/st_main.c. A signal is pending until the process that it is sent to waits in
-- `sigsuspend`: SIGUSR1, SIGUSR2 and SIGCHLD are blocked elsewhere. Every handler blocks all
-- signals while it runs, so one signal is handled for each return of `sigsuspend`.
use Prim.Native.Nat.{bit_and}
use sem.Common.{
  ℕ, ◌+◌, ◌/◌, ◌%◌, ◌≡◌, Bool, true, false, [], ◌∷◌, ◌++◌, Bytes, ◌==◌, if◌then◌else◌, Run, ok,
  exit, fault, arith,
}

-- Where the child stands, with the mask `i` and the byte `c` of its inner loop.
pub data Phase : Type 0 where
  opening : Phase  -- before `open(argv[1], O_RDONLY)`
  reading : Phase  -- before `read(fd, &c, 1)`
  sending : (i c : ℕ) → Phase  -- before `if ( i & c )`
  waiting : (i c : ℕ) → Phase  -- in `sigsuspend(&set)`
  ended : Phase  -- behind the loop, at the end of the file

-- Where the parent stands: at the head of its loop, in `sigsuspend(&set)`, or gone.
pub data Place : Type 0 where
  head suspended gone : Place

pub record World : Type 0 where
  -- the child: what it has not read, where it stands, whether it lives and whether its alarm is set
  pub src : Bytes
  pub phase : Phase
  pub alive : Bool
  pub armed : Bool
  -- the signals pending: SIGUSR1 at the child; SIGUSR1, SIGUSR2 and SIGCHLD at the parent
  pub ack : Bool
  pub usr1 : Bool
  pub usr2 : Bool
  pub chld : Bool
  -- the parent: its two static variables, the bytes written, and where it stands
  pub out_char : ℕ
  pub counter : ℕ
  pub written : Bytes
  pub place : Place

-- `main` before the fork: the check of the arguments.
unfoldable pub check_args : ℕ → Run (Unit {0})
check_args argc = if argc == 3 then ok tt else exit 1

-- `GotOne`, the handler of SIGUSR1, and `GotZero`, the handler of SIGUSR2.
unfoldable pub got_one : World → World
got_one w = record w { out_char = w.out_char + w.counter; counter = w.counter / 2; ack = true }

unfoldable pub got_zero : World → World
got_zero w = record w { counter = w.counter / 2; ack = true }

-- `childexit`, the handler of SIGCHLD.
unfoldable pub childexit : World → World
childexit w = record w { place = gone }

-- The end of the child: `exit` in its main, or in `parentexit`, the handler of SIGALRM.
unfoldable pub child_exit : World → World
child_exit w = record w { alive = false; chld = true }

-- The head of the parent's loop: a whole byte is written out.
unfoldable pub parent_head : World → World
parent_head w =
    if w.counter == 0
    then record w {
      written = w.written ++ w.out_char % 256 ∷ [];
      counter = 128;
      out_char = 0;
      place = suspended;
    }
    else record w { place = suspended }

-- The head on every result of fopen and of write: fileno of NULL is undefined, and a byte whose write
-- fails is lost. The steps below are those of a parent that has its file and whose writes succeed.
unfoldable pub parent_turn : Bool → Bool → World → Run World
parent_turn opened wrote w =
    if w.counter == 0
    then (if opened
        then ok (record w {
          written = if wrote then w.written ++ w.out_char % 256 ∷ [] else w.written;
          counter = 128;
          out_char = 0;
          place = suspended;
        })
        else fault)
    else ok (record w { place = suspended })

parent_turn-head : (w : World) → parent_turn true true w ≡ ok (parent_head w)
unfolding parent_turn parent_head
parent_turn-head w = ground arith

-- A signal handled in `sigsuspend` is no longer pending, and the loop goes round.
unfoldable pub parent_usr1 : World → World
unfolding got_one
parent_usr1 w = got_one (record w { usr1 = false; place = head })

unfoldable pub parent_usr2 : World → World
unfolding got_zero
parent_usr2 w = got_zero (record w { usr2 = false; place = head })

-- The child's `read`, which gives a byte or the end of the file: a byte sets the alarm and starts the loop over its bits.
unfoldable pub child_read : World → World
unfolding child_exit
child_read w = elim w.src [
  | [] ↦ child_exit (record w { phase = ended })
  | c ∷ r ↦ record w { src = r; phase = sending 128 c; armed = true }
]

-- The child's `kill`.
unfoldable pub child_send : ℕ → ℕ → World → World
child_send i c w =
    if bit_and i c == 0
    then record w { usr2 = true; phase = waiting i c }
    else record w { usr1 = true; phase = waiting i c }

-- The child's return from `sigsuspend`, and the step and test of its inner loop.
unfoldable pub child_wake : ℕ → ℕ → World → World
child_wake i c w =
    if i / 2 == 0
    then record w { ack = false; phase = reading }
    else record w { ack = false; phase = sending (i / 2) c }

pub data Step (w : World) : World → Type 0 where
  open_fails : w.alive ≡ true → w.phase ≡ opening → Step w (child_exit w)
  read_fails : w.alive ≡ true → w.phase ≡ reading → Step w (child_exit w)
  opens : w.alive ≡ true → w.phase ≡ opening → Step w (record w { phase = reading })
  reads : w.alive ≡ true → w.phase ≡ reading → Step w (child_read w)
  sends : {i c : ℕ} → w.alive ≡ true → w.phase ≡ sending i c → Step w (child_send i c w)
  wakes :
      {i c : ℕ} → w.alive ≡ true → w.phase ≡ waiting i c → w.ack ≡ true → Step w (child_wake i c w)
  -- SIGALRM is not blocked: it ends the child wherever it stands once its alarm is set
  alarms : w.alive ≡ true → w.armed ≡ true → Step w (child_exit w)
  heads : w.place ≡ head → Step w (parent_head w)
  one : w.place ≡ suspended → w.usr1 ≡ true → Step w (parent_usr1 w)
  zeroes : w.place ≡ suspended → w.usr2 ≡ true → Step w (parent_usr2 w)
  exits : w.place ≡ suspended → w.chld ≡ true → Step w (childexit w)

-- After the fork.
abbrev pub begin : Bytes → World
begin file = record {
  src = file;
  phase = opening;
  alive = true;
  armed = false;
  ack = false;
  usr1 = false;
  usr2 = false;
  chld = false;
  out_char = 0;
  counter = 128;
  written = [];
  place = head;
}

pub data Reach (file : Bytes) : World → Type 0 where
  here : Reach file (begin file)
  later : {w u : World} → Reach file w → Step w u → Reach file u
