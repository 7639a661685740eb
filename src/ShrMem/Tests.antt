-- ===== src/ShrMem/Tests.antt =====
-- A file of one byte.
use sem.Common.{
  ◌++◌, ◌<◌, Bytes, length, none, true, false, ◌+◌, ◌≤◌, ◌≡◌, ◌⊎◌, refl, some, [], ◌∷◌, arith,
  codes, ok, exit, ℕ, zero, suc, sym, replicate, get_or, ◌==◌, if◌then◌else◌, fault,
}
use sem.ShrMem.Segment.{Segment, send_bytes, test_bytes, receive_bytes, leave_bytes, init_segment}
use sem.ShrMem.Memory.{read_word}
use sem.ShrMem.Layout.{Holds}
use sem.ShrMem.Refinement.{bytes_refine, window, init_segment-room}
use sem.ShrMem.Main.{
  ring_sz, shared_memory_init, semaphores_init, s_empty, r_end, World, begin, waits_empty, Reach,
  here, later, Step, s_spin, s_end, SharedMemory, send_section, receive_section, goes_on,
}
use sem.ShrMem.Exclusion.{s_holds, r_holds, sections_exclude}
use sem.ShrMem.Semaphores.{Store, got, sem_open, semaphore_remove, semaphore_remove-keeps}
use sem.ShrMem.Begin.{getaddr, main_begin, receives_in_child}
use sem.ShrMem.Transfer.{written-IsFront, receiver_end}
use sem.ShrMem.Completion.{transfer_can_complete}
use sem.ShrMem.LostByte.{last_byte_lost}

abbrev first_step : World
unfolding begin semaphores_init shared_memory_init
first_step = record (begin (codes "a")) {
  snd = s_empty;
  sem = record { empty = 39; mutex = 1; full = 0 };
}

sections_exclude_example :
    (s_holds first_step.snd + r_holds first_step.rcv ≤ 1)
    × (first_step.sem.empty + first_step.sem.full ≤ ring_sz)
unfolding begin semaphores_init shared_memory_init
sections_exclude_example =
    sections_exclude (codes "a") first_step
      (later here (waits_empty refl (omega arith) (omega arith)))

last_byte_lost_example :
    (w : World) × Reach (codes "a") w
    × (w.rcv ≡ r_end)
    × (w.dst ≡ [])
    × (w.snd ≡ s_spin)
    × ((u : World) → ¬ Step w u)
last_byte_lost_example = last_byte_lost b'a'

abbrev three : Store
three = (7, 40) ∷ (8, 1) ∷ (9, 0) ∷ []

semaphore_remove-keeps_example :
    ((added : Store) × (semaphore_remove (got 1, got 7) (got 2, got 8) (got 3, got 9) three
        ≡ ok (three ++ added)))
    ⊎ (semaphore_remove (got 1, got 7) (got 2, got 8) (got 3, got 9) three ≡ exit 1)
semaphore_remove-keeps_example =
    semaphore_remove-keeps (got 1, got 7) (got 2, got 8) (got 3, got 9) three

-- A semaphore that semget gives gets its size.
opened_anew : sem_open (got 1) (got 7) [] [] 40 ((7, 5) ∷ []) ≡ ok (some 7, (7, 40) ∷ [])
unfolding sem_open
opened_anew = refl

-- A segment that cannot be had, and a start that succeeds.
no_segment :
    main_begin 3 true false true [] (ok (record { empty = 40; mutex = 1; full = 0 })) none ≡ exit 1
unfolding main_begin getaddr
no_segment = refl

begins_receiving :
    main_begin 3 true true true
      (codes "x")
      (ok (record { empty = 40; mutex = 1; full = 0 }))
      (some receives_in_child)
    ≡ ok (
      record { status = 1; s_ind = 0; r_ind = 0; buf = codes "x" },
      (record { empty = 40; mutex = 1; full = 0 }, receives_in_child),
    )
unfolding main_begin getaddr shared_memory_init
begins_receiving = refl

written-IsFront_example :
    (rest : Bytes) × (first_step.dst ++ rest ≡ codes "a")
    × (first_step.shm.s_ind < ring_sz)
    × (first_step.shm.r_ind < ring_sz)
unfolding begin semaphores_init shared_memory_init
written-IsFront_example =
    written-IsFront (codes "a") first_step
      (later here (waits_empty refl (omega arith) (omega arith)))

abbrev lost :
    (w : World) × Reach (codes "a") w
    × (w.rcv ≡ r_end)
    × (w.dst ≡ [])
    × (w.snd ≡ s_spin)
    × ((u : World) → ¬ Step w u)
lost = last_byte_lost b'a'

receiver_end_example : (rest : Bytes) × (lost.0.dst ++ rest ≡ codes "a") × (length rest ≤ 1)
receiver_end_example = receiver_end (codes "a") lost.0 lost.1 lost.2

transfer_can_complete_example :
    (w : World) × Reach (codes "ab") w × (w.dst ≡ codes "ab") × (w.rcv ≡ r_end) × (w.snd ≡ s_end)
transfer_can_complete_example = transfer_can_complete (codes "ab")

get_or-zeros : (n j : ℕ) → ◌≡◌ {A = ℕ} (get_or (replicate n 0) j 0) 0
get_or-zeros zero j = refl
get_or-zeros (suc n) zero = refl
get_or-zeros (suc n) (suc j) = get_or-zeros n j

-- A page of zeros but for the status, and the record that it holds.
abbrev page : Segment
page = record { size = 4096; bytes = λ at. if at == 0 then 1 else 0 }

abbrev fresh : SharedMemory
fresh = record { status = 1; s_ind = 0; r_ind = 0; buf = replicate 40 0 }

zeros_read : (j : ℕ) → j < 40 → page.bytes (24 + j) ≡ get_or (replicate 40 0) j 0
zeros_read j h = let e : (24 + j == 0) ≡ false = ground arith in rw e (sym (get_or-zeros 40 j))

page-Holds : Holds page fresh
unfolding read_word
page-Holds = record {
  room = omega arith;
  status = refl;
  s_ind = refl;
  r_ind = refl;
  s_range = omega arith;
  r_range = omega arith;
  length_buf = refl;
  buffer = zeros_read;
}

bytes_refine_example :
    ((s' : Segment) × (send_bytes (codes "ab") page ≡ ok ((send_section (codes "ab") fresh).0, s'))
      × Holds s' (send_section (codes "ab") fresh).1)
    × (test_bytes page 0 ≡ ok (goes_on fresh 0))
    × ((s' : Segment) × (receive_bytes page [] ≡ ok ((receive_section fresh []).0, s'))
        × Holds s' (receive_section fresh []).1)
    × ((s' : Segment) × (leave_bytes page ≡ ok s') × Holds s' fresh)
bytes_refine_example = bytes_refine (codes "ab") [] 0 page fresh page-Holds

-- The segment with the 64 bytes that the program asks for.
abbrev asked_for : Segment
asked_for = record { size = 64; bytes = λ at. 0 }

init_segment-room_example :
    ((64 < 136) × (init_segment asked_for ≡ fault))
    ⊎ ((136 ≤ 64)
        × (s' : Segment) × (init_segment asked_for ≡ ok s')
        × Holds s' (shared_memory_init (window asked_for.bytes 24 40)))
init_segment-room_example = init_segment-room asked_for
