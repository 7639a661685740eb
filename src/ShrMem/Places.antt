-- ===== src/ShrMem/Places.antt =====
-- What each place in the loops of src/sm_main.c says of the ring, as numbers.
use sem.Common.{ℕ, ◌≤◌, arith}
use sem.ShrMem.Main.{
  Sender, s_test, s_empty, s_mutex, s_written, s_posted, s_spin, s_end, Receiver, r_top, r_full,
  r_mutex, r_read, r_posted, r_break, r_left, r_end,
}
use sem.ShrMem.Exclusion.{r_has}

-- The sender has put something into the ring and not posted `full`.
abbrev pub s_given : Sender → ℕ
s_given s_test = 0
s_given s_empty = 0
s_given s_mutex = 0
s_given s_written = 1
s_given s_posted = 1
s_given s_spin = 0
s_given s_end = 0

-- The sender has found the status to be one and not come to its section's end.
abbrev pub s_before : Sender → ℕ
s_before s_test = 0
s_before s_empty = 1
s_before s_mutex = 1
s_before s_written = 0
s_before s_posted = 0
s_before s_spin = 0
s_before s_end = 0

-- The receiver has taken a post of `full` and taken nothing from the ring for it.
abbrev pub r_taken : Receiver → ℕ
r_taken r_top = 0
r_taken r_full = 1
r_taken r_mutex = 1
r_taken r_read = 0
r_taken r_posted = 0
r_taken r_break = 0
r_taken r_left = 0
r_taken r_end = 0

-- The receiver is on its way out, and it is out.
abbrev pub r_broke : Receiver → ℕ
r_broke r_top = 0
r_broke r_full = 0
r_broke r_mutex = 0
r_broke r_read = 0
r_broke r_posted = 0
r_broke r_break = 1
r_broke r_left = 1
r_broke r_end = 1

abbrev pub r_ended : Receiver → ℕ
r_ended r_top = 0
r_ended r_full = 0
r_ended r_mutex = 0
r_ended r_read = 0
r_ended r_posted = 0
r_ended r_break = 0
r_ended r_left = 0
r_ended r_end = 1

pub s_given-le : (s : Sender) → s_given s ≤ 1
s_given-le s_test = omega arith
s_given-le s_empty = omega arith
s_given-le s_mutex = omega arith
s_given-le s_written = omega arith
s_given-le s_posted = omega arith
s_given-le s_spin = omega arith
s_given-le s_end = omega arith

pub r_taken-le : (r : Receiver) → r_taken r ≤ r_has r
r_taken-le r_top = omega arith
r_taken-le r_full = omega arith
r_taken-le r_mutex = omega arith
r_taken-le r_read = omega arith
r_taken-le r_posted = omega arith
r_taken-le r_break = omega arith
r_taken-le r_left = omega arith
r_taken-le r_end = omega arith
