-- ===== src/SysService/Balance.antt =====
-- The heap of the tables: what a round allocates for its table, the next round frees.
use sem.Common.{
  ℕ, ◌+◌, ◌-◌, ◌≡◌, refl, sym, ap, ◌∙◌, Option, none, some, List, [], ◌∷◌, Bytes, codes, decimal,
  take, length, take_all, ok, ok-injective, arith,
}
use sem.SysService.Log.{Logged, ◌>>=◌, ◌>>◌, return, create_log, >>=-eq-ok}
use sem.SysService.Maps.{
  MapsLine, free_pml, field_blocks, line_blocks, lines_blocks, array_blocks, freed_field,
  freed_line, freed_lines, freed_array,
}
use sem.SysService.Diff.{pml_diff, Tables, pml_swap}
use mathlib.Core.Path.{subst}
use sem.SysService.Service.{
  compare_tables, start_service, announce_start, first_tables, read_table, service_round,
  service_loop,
}

-- The heap that an array owns.
abbrev pub blocks : List MapsLine → ℕ
blocks ps = lines_blocks ps + array_blocks ps

-- `free_PML` frees what a table owns.
freed_field-blocks : (f : Option Bytes) → freed_field f ≡ field_blocks f
freed_field-blocks none = refl
freed_field-blocks (some f) = refl

freed_line-blocks : (p : MapsLine) → freed_line p ≡ line_blocks p
freed_line-blocks p =
    rw
      (
        freed_field-blocks p.address,
        freed_field-blocks p.perms,
        freed_field-blocks p.offset,
        freed_field-blocks p.device,
        freed_field-blocks p.inode,
        freed_field-blocks p.path,
      )
      refl

freed_lines-blocks : (ps : List MapsLine) → freed_lines ps ≡ lines_blocks ps
freed_lines-blocks [] = refl
freed_lines-blocks (p ∷ ps) = omega (arith, freed_line-blocks p, freed_lines-blocks ps)

freed_array-blocks : (ps : List MapsLine) → freed_array ps ≡ array_blocks ps
freed_array-blocks [] = refl
freed_array-blocks (p ∷ ps) = refl

pub freed-blocks : (ps : List MapsLine) → freed_lines ps + freed_array ps ≡ blocks ps
freed-blocks ps = omega (arith, freed_lines-blocks ps, freed_array-blocks ps)

-- Between two rounds the heap of the tables holds the current array and nothing else.
pub record IsBalanced (t : Tables) : Type 0 where
  pub counted : t.num_lns_cur ≡ length t.cur
  pub cleared : t.next ≡ []
  pub uncounted : t.num_lns_next ≡ 0
  pub owned : t.live ≡ blocks t.cur

free_pml-live :
    (ps : List MapsLine) (n live : ℕ) (log : List Bytes) {r : ℕ × List Bytes}
    → free_pml ps n live log ≡ ok r
    → r.0 ≡ live - (freed_lines (take n ps) + freed_array ps)
unfolding free_pml
free_pml-live ps n live log {r} h =
    let (_, l1, e1, h1) =
      >>=-eq-ok (create_log (codes "free(PML) is working..") [])
        (λ _.
          create_log (codes "SUCCEED") []
          >> return (live - (freed_lines (take n ps) + freed_array ps)))
        log h in
    let (_, l2, e2, h2) =
      >>=-eq-ok (create_log (codes "SUCCEED") [])
        (λ _. return (live - (freed_lines (take n ps) + freed_array ps))) l1 h1 in
    sym (ap (λ (x : ℕ × List Bytes). x.0) (ok-injective h2))

-- The tables that `pml_swap` leaves: the next array is the current one, and the old one is freed.
abbrev swapped : Tables → ℕ → Tables
swapped t live = record {
  cur = t.next;
  num_lns_cur = t.num_lns_next;
  next = [];
  num_lns_next = 0;
  live = live;
}

pml_swap-tables :
    (t : Tables) (log : List Bytes) {r : Tables × List Bytes}
    → pml_swap t log ≡ ok r
    → r.0 ≡ swapped t (t.live - (freed_lines (take t.num_lns_cur t.cur) + freed_array t.cur))
unfolding pml_swap
pml_swap-tables t log {r} h =
    let (_, l1, e1, h1) =
      >>=-eq-ok (create_log (codes "Swapping is started..") [])
        (λ _. free_pml t.cur t.num_lns_cur t.live >>= λ live.
          create_log (codes "Swap: SUCCEED\n") [] >> return (swapped t live))
        log h in
    let (live, l2, e2, h2) =
      >>=-eq-ok (free_pml t.cur t.num_lns_cur t.live)
        (λ live. create_log (codes "Swap: SUCCEED\n") [] >> return (swapped t live)) l1 h1 in
    let (_, l3, e3, h3) =
      >>=-eq-ok (create_log (codes "Swap: SUCCEED\n") []) (λ _. return (swapped t live)) l2 h2 in
    sym (ap (λ (x : Tables × List Bytes). x.0) (ok-injective h3))
    ∙ ap (swapped t) (free_pml-live t.cur t.num_lns_cur t.live l1 e2)

-- The tables of a round just before the swap.
abbrev loaded : Tables → List MapsLine → Tables
loaded t next = record t { next = next; num_lns_next = length next; live = t.live + blocks next }

-- The old array goes, the new one stays.
swapped-IsBalanced :
    (t : Tables) (next : List MapsLine)
    → IsBalanced t
    → IsBalanced (
        swapped
          (loaded t next)
          ((loaded t next).live - (freed_lines (take t.num_lns_cur t.cur) + freed_array t.cur)))
swapped-IsBalanced t next b = record {
  counted = refl;
  cleared = refl;
  uncounted = refl;
  owned =
      let all : freed_lines (take t.num_lns_cur t.cur) ≡ freed_lines t.cur =
        ap freed_lines (take_all t.num_lns_cur t.cur (omega (arith, b.counted))) in
      omega (arith, all, freed-blocks t.cur, b.owned);
}

compare_tables-IsBalanced :
    (t : Tables) (o : Option (List MapsLine)) (log : List Bytes) {t' : Tables} {log' : List Bytes}
    → IsBalanced t
    → compare_tables t o log ≡ ok (some t', log')
    → IsBalanced t'
unfolding compare_tables
compare_tables-IsBalanced t none log b h = absurd (cc)
compare_tables-IsBalanced t (some next) log {t'} {log'} b h =
    let (_, l1, e1, h1) =
      >>=-eq-ok (pml_diff t.cur t.num_lns_cur next (length next))
        (λ _. pml_swap (loaded t next) >>= λ u. return (some u)) log h in
    let (u, l2, e2, h2) = >>=-eq-ok (pml_swap (loaded t next)) (λ u. return (some u)) l1 h1 in
    let same_tables : u ≡ t' = cc in
    let left = pml_swap-tables (loaded t next) l1 e2 in
    subst IsBalanced (sym left ∙ same_tables) (swapped-IsBalanced t next b)

-- A round of the service that goes on leaves the heap with the new array and nothing else, if it
-- found the heap so: every block of the old array is freed.
pub service_round-IsBalanced :
    (tr_pid : ℕ) (file : Option (List Bytes)) (error : Bytes) (t t' : Tables)
    (log log' : List Bytes)
    → IsBalanced t
    → service_round tr_pid file error t log ≡ ok (some t', log')
    → IsBalanced t'
unfolding service_round
service_round-IsBalanced tr_pid file error t t' log log' b h =
    let (o, l1, e1, h1) =
      >>=-eq-ok (read_table tr_pid (return tt) file error) (compare_tables t) log h in
    compare_tables-IsBalanced t o l1 b h1

service_loop-IsBalanced :
    (tr_pid : ℕ) (files : List (Option (List Bytes))) (error : Bytes) (o : Option Tables)
    (t' : Tables) (log log' : List Bytes)
    → ((t : Tables) → o ≡ some t → IsBalanced t)
    → service_loop tr_pid files error o log ≡ ok (some t', log')
    → IsBalanced t'
unfolding service_loop
service_loop-IsBalanced tr_pid [] error none t' log log' b h = absurd (cc)
service_loop-IsBalanced tr_pid (file ∷ files) error none t' log log' b h = absurd (cc)
service_loop-IsBalanced tr_pid [] error (some t) t' log log' b h = b t' (cc)
service_loop-IsBalanced tr_pid (file ∷ files) error (some t) t' log log' b h =
    let (o, l1, e1, h1) =
      >>=-eq-ok (service_round tr_pid file error t) (service_loop tr_pid files error) log h in
    service_loop-IsBalanced tr_pid files error o t' l1 log'
      (λ u q.
        service_round-IsBalanced tr_pid file error t u log l1 (b t refl)
          (e1 ∙ ap (λ (x : Option Tables). ok (x, l1)) q))
      h1

first_tables-IsBalanced :
    (cur : List MapsLine) (t : Tables) → first_tables (some cur) ≡ some t → IsBalanced t
first_tables-IsBalanced cur t e = ground arith

announce_start-IsBalanced :
    (o : Option (List MapsLine)) (log : List Bytes) {r : Option Tables × List Bytes}
    → announce_start o log ≡ ok r
    → (t : Tables) → r.0 ≡ some t
    → IsBalanced t
unfolding announce_start
announce_start-IsBalanced none log h t e = absurd (cc)
announce_start-IsBalanced (some cur) log {r} h t e =
    let (_, l1, e1, h1) =
      >>=-eq-ok (create_log (codes "SUCCEED: Service started!\n") [])
        (λ _. return (first_tables (some cur))) log h in
    first_tables-IsBalanced cur t
      (ap (λ (x : Option Tables × List Bytes). x.0) (ok-injective h1) ∙ e)

abbrev begun : ℕ → Option (List Bytes) → Bytes → Logged (Option Tables)
begun tr_pid first error =
    read_table tr_pid (create_log (codes "Parsing maps file...\n") []) first error
    >>= announce_start

-- However often the maps file has been read since the start, when the service comes back to its
-- sleep, of the blocks that were made for tables and their words those of the current table are left
-- and no others, and the count is the table's length.
pub start_service-IsBalanced :
    (tr_pid : ℕ) (first : Option (List Bytes)) (files : List (Option (List Bytes))) (error : Bytes)
    (t : Tables) (log log' : List Bytes)
    → start_service tr_pid first files error log ≡ ok (some t, log')
    → IsBalanced t
unfolding start_service
start_service-IsBalanced tr_pid first files error t log log' h =
    let (_, l1, e1, h1) = >>=-eq-ok (create_log (codes "Starting service...\n") []) _ log h in
    let (_, l2, e2, h2) =
      >>=-eq-ok (create_log (codes "Tracking pid: %d") (decimal tr_pid ∷ [])) _ l1 h1 in
    let (o, l3, e3, h3) =
      >>=-eq-ok (begun tr_pid first error) (service_loop tr_pid files error) l2 h2 in
    let (u, l4, e4, h4) =
      >>=-eq-ok (read_table tr_pid (create_log (codes "Parsing maps file...\n") []) first error)
        announce_start l2 e3 in
    service_loop-IsBalanced tr_pid files error o t l3 log'
      (λ v q. announce_start-IsBalanced u l4 h4 v q) h3
